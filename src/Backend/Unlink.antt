-- ===== src/Backend/Unlink.antt =====
-- A cell that leaves a doubly linked list behind other cells.
use macsad.Prelude.{Apart, Distinct, ℕ, ◌≡◌, ◌∙◌, some, Option, List, [], ◌∷◌, ◌++◌, sym, ap, subst}
use macsad.Backend.{MemCell, set_prev, set_next}
use macsad.Backend.Chain.{
  PtrApart, Disjoint, Chain, Chain-set_cell, Chain-relink, Chain-PtrApart, set_prev-other,
  Disjoint-sym, set_cell-here, set_cell-other,
}

pub Apart-append : (x : ℕ) (xs bs : List ℕ) → Apart x (xs ++ bs) → Apart x xs × Apart x bs
unfolding Apart
Apart-append x [] bs d = (tt, d)
Apart-append x (a ∷ xs) bs (n, d) = let (l, r) = Apart-append x xs bs d in ((n, l), r)

pub Apart-join : (x : ℕ) (xs bs : List ℕ) → Apart x xs → Apart x bs → Apart x (xs ++ bs)
unfolding Apart
Apart-join x [] bs l r = r
Apart-join x (a ∷ xs) bs (n, l) r = (n, Apart-join x xs bs l r)

-- Where `cell` is linked out between the cell in front, `front`, and the one behind it.
abbrev pub linked_out : (ℕ → MemCell) → ℕ → ℕ → ℕ → MemCell
linked_out cells front cell =
    set_prev (set_next cells front (cells cell).next) (cells cell).next (some front)

pub record Unlinked (cells : ℕ → MemCell) (back head : Option ℕ) (xs : List ℕ) (c : ℕ) (bs : List ℕ)
    (front : ℕ) : Type 0 where
  pub in_front : (cells c).prev ≡ some front
  pub remaining : Chain (linked_out cells front c) back head (xs ++ bs)
  pub front_apart : (ys : List ℕ) → Disjoint xs ys → Apart front ys
  pub next_apart : (ys : List ℕ) → Disjoint bs ys → PtrApart (cells c).next ys

-- The two links that change are none of the links of a cell that is apart from them.
linked_out-other :
    (cells : ℕ → MemCell) (front c y : ℕ)
    → Apart front (y ∷ [])
    → PtrApart (cells c).next (y ∷ [])
    → linked_out cells front c y ≡ cells y
unfolding Apart
linked_out-other cells front c y (n, t) a =
    set_prev-other (set_next cells front (cells c).next) (cells c).next (some front) y a
    ∙ set_cell-other cells front y _ n

module _ (cells : ℕ → MemCell) (c : ℕ) (bs : List ℕ) where
  Unlinked-first :
      (back head : Option ℕ) (a : ℕ)
      → Distinct (a ∷ c ∷ bs)
      → Chain cells back head (a ∷ c ∷ bs)
      → Unlinked cells back head (a ∷ []) c bs a
  unfolding Chain Distinct Apart Disjoint
  Unlinked-first back head a ((n, a_bs), (c_bs, bs_distinct)) (h, p, (hc, pc, chain)) =
      let next = (cells c).next in
      let next_a =
        Chain-PtrApart cells (some c) next bs (a ∷ []) (Disjoint-sym (a ∷ []) bs (a_bs, tt))
          chain in
      let at : linked_out cells a c a ≡ record (cells a) { next = next } =
        set_prev-other (set_next cells a next) next (some a) a next_a ∙ set_cell-here cells a _ in
      record {
        in_front = pc;
        remaining = (
          h,
          ap (λ d. d.prev) at ∙ p,
          subst (λ d. Chain (linked_out cells a c) (some a) d.next bs) (sym at)
              (Chain-relink (set_next cells a next) (some c) (some a) next bs bs_distinct
                (Chain-set_cell cells a _ (some c) next bs a_bs chain)),
        );
        front_apart = λ ys d. d.0;
        next_apart = λ ys d. Chain-PtrApart cells (some c) next bs ys d chain;
      }

  Unlinked-cons :
      (back head : Option ℕ) (a : ℕ) (xs : List ℕ) (front : ℕ)
      → Apart a (xs ++ c ∷ bs)
      → head ≡ some a
      → (cells a).prev ≡ back
      → Unlinked cells (some a) (cells a).next xs c bs front
      → Unlinked cells back head (a ∷ xs) c bs front
  unfolding Chain Apart Disjoint
  Unlinked-cons back head a xs front apart h p u =
      let (a_as, (n, a_bs)) = Apart-append a xs (c ∷ bs) apart in
      let at =
        linked_out-other cells front c a
          (u.front_apart (a ∷ []) (Disjoint-sym (a ∷ []) xs (a_as, tt)))
          (u.next_apart (a ∷ []) (Disjoint-sym (a ∷ []) bs (a_bs, tt))) in
      record {
        in_front = u.in_front;
        remaining = (
          h,
          ap (λ d. d.prev) at ∙ p,
          subst (λ d. Chain (linked_out cells front c) (some a) d.next (xs ++ bs)) (sym at)
              u.remaining,
        );
        front_apart = λ ys d. u.front_apart ys d.1;
        next_apart = u.next_apart;
      }

  -- A cell behind others has one of them in front, and the list is the others once it is linked out.
  pub Unlinked_lem :
      (back head : Option ℕ) (a : ℕ) (xs : List ℕ)
      → Distinct (a ∷ xs ++ c ∷ bs)
      → Chain cells back head (a ∷ xs ++ c ∷ bs)
      → (front : ℕ) × Unlinked cells back head (a ∷ xs) c bs front
  unfolding Chain Distinct
  Unlinked_lem back head a [] d chain = (a, Unlinked-first back head a d chain)
  Unlinked_lem back head a (a' ∷ xs) (apart, d) (h, p, chain) =
      let (front, u) = Unlinked_lem (some a) (cells a).next a' xs d chain in
      (front, Unlinked-cons back head a (a' ∷ xs) front apart h p u)

-- What is known of the lists without the cell.
pub Distinct-without :
    (xs : List ℕ) (c : ℕ) (bs : List ℕ)
    → Distinct (xs ++ c ∷ bs)
    → Apart c (xs ++ bs) × Distinct (xs ++ bs)
unfolding Distinct Apart
Distinct-without [] c bs d = d
Distinct-without (x ∷ xs) c bs (a, d) =
    let (x_xs, (n, x_bs)) = Apart-append x xs (c ∷ bs) a in
    let (c_rest, d') = Distinct-without xs c bs d in
    (((λ e. n (sym e)), c_rest), (Apart-join x xs bs x_xs x_bs, d'))

pub Disjoint-without :
    (xs : List ℕ) (c : ℕ) (bs fs : List ℕ)
    → Disjoint (xs ++ c ∷ bs) fs
    → Apart c fs × Disjoint (xs ++ bs) fs
unfolding Disjoint
Disjoint-without [] c bs fs d = d
Disjoint-without (x ∷ xs) c bs fs (a, d) =
    let (c_fs, d') = Disjoint-without xs c bs fs d in (c_fs, (a, d'))

pub Disjoint-front :
    (xs : List ℕ) (c : ℕ) (bs fs : List ℕ)
    → Disjoint (xs ++ c ∷ bs) fs
    → Disjoint xs fs × Disjoint bs fs
unfolding Disjoint
Disjoint-front [] c bs fs (a, d) = (tt, d)
Disjoint-front (x ∷ xs) c bs fs (a, d) = let (l, r) = Disjoint-front xs c bs fs d in ((a, l), r)
