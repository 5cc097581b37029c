-- ===== src/Prelude/Partial.antt =====
-- Steps that may fault.
use mathlib.Core.Path.{◌≡◌, ap, ◌∙◌}
use mathlib.Core.Option.{Option, none, some}

-- The second step on the result of the first.
infixl 4 ◌and_then◌
abbrev pub ◌and_then◌ {ℓ κ} : {A : Type ℓ} {B : Type κ} → Option A → (A → Option B) → Option B
none and_then f = none
(some a) and_then f = f a

-- The step ends without a fault, in a state with the property.
abbrev pub Ends {ℓ κ} : {A : Type ℓ} → Option A → (A → Type κ) → Type (ℓ ⊔ κ)
Ends {A = A} o P = (a : A) × (o ≡ some a) × P a

pub Ends-and_then {ℓ κ ν} :
    {A : Type ℓ} {B : Type κ} {Q : A → Type ν} (o : Option A) (f : A → Option B) (R : B → Type ν)
    → Ends o Q
    → ((a : A) → Q a → Ends (f a) R)
    → Ends (o and_then f) R
Ends-and_then o f R (a, e, q) h = let (b, r, s) = h a q in (b, ap (λ x. x and_then f) e ∙ r, s)

-- The same, where the result of the first step is known.
pub Ends-next {ℓ κ ν} :
    {A : Type ℓ} {B : Type κ} (o : Option A) (a : A) (f : A → Option B) (R : B → Type ν)
    → o ≡ some a
    → Ends (f a) R
    → Ends (o and_then f) R
Ends-next o a f R e (b, r, s) = (b, ap (λ x. x and_then f) e ∙ r, s)
