-- ===== src/Prelude/Nodes.antt =====
-- Numbers that name nodes of a linked structure, and are pairwise different.
use Prim.Native.Nat.{ℕ}
use mathlib.Core.Logic.{◌≢◌}
use mathlib.Core.List.{List, [], ◌∷◌}

-- `x` is none of the numbers.
unfoldable pub Apart : ℕ → List ℕ → Type 0
Apart x [] = Unit {0}
Apart x (y ∷ ys) = (x ≢ y) × Apart x ys

unfoldable pub Distinct : List ℕ → Type 0
unfolding Apart
Distinct [] = Unit {0}
Distinct (x ∷ xs) = Apart x xs × Distinct xs
