-- ===== src/Backend/Chain.antt =====
-- Doubly linked lists of memory cells.
use macsad.Prelude.{
  Apart, Distinct, ℕ, ◌≡◌, ◌≢◌, ◌∙◌, ◌==◌, true, false, none, some, Option, List, [], ◌∷◌, refl,
  sym, ap, arith, subst,
}
use macsad.Backend.{MemCell, set_cell, set_prev}

-- A pointer that is none of the cells.
unfoldable pub PtrApart : Option ℕ → List ℕ → Type 0
unfolding Apart
PtrApart none ys = Unit {0}
PtrApart (some x) ys = Apart x ys

unfoldable pub Disjoint : List ℕ → List ℕ → Type 0
unfolding Apart
Disjoint [] ys = Unit {0}
Disjoint (x ∷ xs) ys = Apart x ys × Disjoint xs ys

-- From `head` the cells are `xs`, each with the one in front as `prev`, the first with `back`.
unfoldable pub Chain : (ℕ → MemCell) → Option ℕ → Option ℕ → List ℕ → Type 0
Chain cells back head [] = head ≡ none
Chain cells back head (x ∷ xs) =
    (head ≡ some x) × ((cells x).prev ≡ back) × Chain cells (some x) (cells x).next xs

pub set_cell-other :
    (cells : ℕ → MemCell) (z y : ℕ) (v : MemCell) → z ≢ y → set_cell cells z v y ≡ cells y
unfolding set_cell
set_cell-other cells z y v n = let off : (y == z) ≡ false = ground arith in rw off

pub set_cell-here : (cells : ℕ → MemCell) (z : ℕ) (v : MemCell) → set_cell cells z v z ≡ v
unfolding set_cell
set_cell-here cells z v = let on : (z == z) ≡ true = ground arith in rw on

-- A write to another cell leaves a list as it is.
pub Chain-set_cell :
    (cells : ℕ → MemCell) (z : ℕ) (v : MemCell) (back head : Option ℕ) (xs : List ℕ)
    → Apart z xs
    → Chain cells back head xs
    → Chain (set_cell cells z v) back head xs
unfolding Apart Chain
Chain-set_cell cells z v back head [] a c = c
Chain-set_cell cells z v back head (x ∷ xs) (n, a) (h, p, c) =
    let same = set_cell-other cells z x v n in
    (
      h,
      ap (λ d. d.prev) same ∙ p,
      subst (λ d. Chain (set_cell cells z v) (some x) d.next xs) (sym same)
          (Chain-set_cell cells z v (some x) (cells x).next xs a c),
    )

pub Chain-set_prev :
    (cells : ℕ → MemCell) (o p back head : Option ℕ) (xs : List ℕ)
    → PtrApart o xs
    → Chain cells back head xs
    → Chain (set_prev cells o p) back head xs
unfolding PtrApart
Chain-set_prev cells none p back head xs a c = c
Chain-set_prev cells (some z) p back head xs a c = Chain-set_cell cells z _ back head xs a c

-- A new `prev` of the first cell.
pub Chain-relink :
    (cells : ℕ → MemCell) (back b head : Option ℕ) (xs : List ℕ)
    → Distinct xs
    → Chain cells back head xs
    → Chain (set_prev cells head b) b head xs
unfolding Chain Distinct
Chain-relink cells back b head [] d c = c
Chain-relink cells back b head (x ∷ xs) (a, d) (h, p, c) =
    subst (λ o. Chain (set_prev cells o b) b o (x ∷ xs)) (sym h) linked
  where
    cells' : ℕ → MemCell
    cells' = set_prev cells (some x) b

    here : cells' x ≡ record (cells x) { prev = b }
    here = set_cell-here cells x _

    linked : Chain cells' b (some x) (x ∷ xs)
    linked = (
      refl,
      ap (λ d. d.prev) here,
      subst (λ d. Chain cells' (some x) d.next xs) (sym here)
          (Chain-set_cell cells x _ (some x) (cells x).next xs a c),
    )

-- The first cell of a list that shares no cell with another is none of the other's.
pub Chain-PtrApart :
    (cells : ℕ → MemCell) (back head : Option ℕ) (xs ys : List ℕ)
    → Disjoint xs ys
    → Chain cells back head xs
    → PtrApart head ys
unfolding Chain Disjoint PtrApart
Chain-PtrApart cells back head [] ys d c = subst (λ o. PtrApart o ys) (sym c) tt
Chain-PtrApart cells back head (x ∷ xs) ys (a, d) (h, p, c) = subst (λ o. PtrApart o ys) (sym h) a

pub set_prev-other :
    (cells : ℕ → MemCell) (o p : Option ℕ) (y : ℕ)
    → PtrApart o (y ∷ [])
    → set_prev cells o p y ≡ cells y
unfolding PtrApart Apart
set_prev-other cells none p y a = refl
set_prev-other cells (some z) p y (n, a) = set_cell-other cells z y _ n

pub Disjoint-cons :
    (xs : List ℕ) (y : ℕ) (ys : List ℕ) → Disjoint xs (y ∷ ys) → Apart y xs × Disjoint xs ys
unfolding Disjoint Apart
Disjoint-cons [] y ys d = (tt, tt)
Disjoint-cons (x ∷ xs) y ys ((n, a), d) =
    let (a', d') = Disjoint-cons xs y ys d in ((λ e. n (sym e), a'), (a, d'))

pub Disjoint-sym : (xs ys : List ℕ) → Disjoint xs ys → Disjoint ys xs
unfolding Disjoint
Disjoint-sym xs [] d = tt
Disjoint-sym xs (y ∷ ys) d = let (a, d') = Disjoint-cons xs y ys d in (a, Disjoint-sym xs ys d')
