-- ===== src/Backend/Line.antt =====
-- Singly linked lists of memory cells: of the unused cells only the `next` pointers and the `prev` of
-- the first one are kept in order.
use macsad.Prelude.{
  Apart, ℕ, ◌≡◌, ◌∙◌, ◌==◌, Bool-cases, none, some, Option, List, [], ◌∷◌, refl, sym, ap, arith,
  inl, inr, subst,
}
use macsad.Backend.{MemCell, set_cell, set_prev}
use macsad.Backend.Chain.{PtrApart, Disjoint, set_cell-other, set_cell-here}

-- From `head` the cells are `xs`.
unfoldable pub Line : (ℕ → MemCell) → Option ℕ → List ℕ → Type 0
Line cells head [] = head ≡ none
Line cells head (x ∷ xs) = (head ≡ some x) × Line cells (cells x).next xs

-- The cell behind the pointer, if there is one, has none in front.
unfoldable pub FirstFree : (ℕ → MemCell) → Option ℕ → Type 0
FirstFree cells none = Unit {0}
FirstFree cells (some x) = (cells x).prev ≡ none

set_prev-next :
    (cells : ℕ → MemCell) (o p : Option ℕ) (y : ℕ) → (set_prev cells o p y).next ≡ (cells y).next
unfolding set_cell
set_prev-next cells none p y = refl
set_prev-next cells (some z) p y = elim (Bool-cases (y == z)) [
  | inl there ↦ let at : z ≡ y = ground arith in rw there (ap (λ i. (cells i).next) at)
  | inr elsewhere ↦ rw elsewhere
]

-- No write to a `prev` changes such a list.
pub Line-set_prev :
    (cells : ℕ → MemCell) (o p head : Option ℕ) (xs : List ℕ)
    → Line cells head xs
    → Line (set_prev cells o p) head xs
unfolding Line
Line-set_prev cells o p head [] l = l
Line-set_prev cells o p head (x ∷ xs) (h, l) = (
  h,
  subst (λ n. Line (set_prev cells o p) n xs) (sym (set_prev-next cells o p x))
      (Line-set_prev cells o p (cells x).next xs l),
)

pub Line-set_cell :
    (cells : ℕ → MemCell) (z : ℕ) (v : MemCell) (head : Option ℕ) (xs : List ℕ)
    → Apart z xs
    → Line cells head xs
    → Line (set_cell cells z v) head xs
unfolding Line Apart
Line-set_cell cells z v head [] a l = l
Line-set_cell cells z v head (x ∷ xs) (n, a) (h, l) = (
  h,
  subst (λ d. Line (set_cell cells z v) d.next xs) (sym (set_cell-other cells z x v n))
      (Line-set_cell cells z v (cells x).next xs a l),
)

pub Line-PtrApart :
    (cells : ℕ → MemCell) (head : Option ℕ) (xs ys : List ℕ)
    → Disjoint xs ys
    → Line cells head xs
    → PtrApart head ys
unfolding Line Disjoint PtrApart
Line-PtrApart cells head [] ys d l = subst (λ o. PtrApart o ys) (sym l) tt
Line-PtrApart cells head (x ∷ xs) ys (a, d) (h, l) = subst (λ o. PtrApart o ys) (sym h) a

pub FirstFree-relink : (cells : ℕ → MemCell) (o : Option ℕ) → FirstFree (set_prev cells o none) o
unfolding FirstFree
FirstFree-relink cells none = tt
FirstFree-relink cells (some z) = ap (λ d. d.prev) (set_cell-here cells z _)

pub FirstFree-set_cell :
    (cells : ℕ → MemCell) (z : ℕ) (v : MemCell) (head : Option ℕ) (xs : List ℕ)
    → Apart z xs
    → Line cells head xs
    → FirstFree cells head
    → FirstFree (set_cell cells z v) head
unfolding Line Apart FirstFree
FirstFree-set_cell cells z v head [] a l f =
    subst (λ o. FirstFree (set_cell cells z v) o) (sym l) tt
FirstFree-set_cell cells z v head (x ∷ xs) (n, a) (h, l) f =
    subst (λ o. FirstFree (set_cell cells z v) o) (sym h)
      (ap (λ d. d.prev) (set_cell-other cells z x v n) ∙ subst (FirstFree cells) h f)

pub FirstFree-set_prev :
    (cells : ℕ → MemCell) (o p head : Option ℕ) (xs : List ℕ)
    → PtrApart o xs
    → Line cells head xs
    → FirstFree cells head
    → FirstFree (set_prev cells o p) head
unfolding PtrApart
FirstFree-set_prev cells none p head xs a l f = f
FirstFree-set_prev cells (some z) p head xs a l f = FirstFree-set_cell cells z _ head xs a l f
