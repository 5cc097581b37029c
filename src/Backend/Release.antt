-- ===== src/Backend/Release.antt =====
-- ctrl_plane_backend.c, `detouch_mem_cell`: any used cell can be given back.
use macsad.Prelude.{
  Apart, Distinct, ℕ, ◌≡◌, ◌≢◌, ◌∙◌, ◌==◌, true, false, none, some, Option, List, [], ◌∷◌, ◌++◌,
  refl, sym, ap, subst, arith, ==_refl,
}
use macsad.Backend.{
  MemCell, Backend, set_prev, set_next, unlink, give_back, detouch_mem_cell, is_cell,
}
use macsad.Backend.Chain.{
  Disjoint, Chain, Chain-set_cell, Chain-set_prev, Chain-relink, Chain-PtrApart, Disjoint-sym,
  set_cell-here, set_cell-other,
}
use macsad.Backend.Unlink.{
  Unlinked, Unlinked_lem, linked_out, Apart-append, Distinct-without, Disjoint-without,
  Disjoint-front,
}
use macsad.Backend.Line.{Line, Line-set_prev, Line-set_cell, Line-PtrApart, FirstFree-relink}
use macsad.Backend.Pool.{IsPool}

-- The cells once the one behind `c` has its new `prev`.
abbrev relinked : Backend → ℕ → ℕ → MemCell
relinked bg c = set_prev bg.cells (bg.cells c).next (bg.cells c).prev

-- A cell outside two lists is put in front of the unused one.
module _ (bg : Backend) (c : ℕ) (us fs : List ℕ) (used : Chain (relinked bg c) none bg.used_head us)
    (unused : Line (relinked bg c) bg.unused_head fs) (us_distinct : Distinct us)
    (fs_distinct : Distinct fs) (c_us : Apart c us) (c_fs : Apart c fs)
    (us_fs : Disjoint us fs) where
  abbrev cells2 : ℕ → MemCell
  cells2 = set_prev (relinked bg c) bg.unused_head (some c)

  abbrev cells3 : ℕ → MemCell
  cells3 = set_next cells2 c bg.unused_head

  abbrev cells4 : ℕ → MemCell
  cells4 = set_prev cells3 (some c) none

  next_kept : (cells4 c).next ≡ bg.unused_head
  next_kept =
      ap (λ d. d.next) (set_cell-here cells3 c _) ∙ ap (λ d. d.next) (set_cell-here cells2 c _)

  give_back-IsPool : IsPool (give_back bg c) us (c ∷ fs)
  unfolding give_back Line Distinct Disjoint Apart
  give_back-IsPool =
      let fs_us = Disjoint-sym us fs us_fs in
      let head_us = Line-PtrApart (relinked bg c) bg.unused_head fs us fs_us unused in
      record {
        used = Chain-set_cell cells3 c _ none bg.used_head us c_us (
            Chain-set_cell cells2 c _ none bg.used_head us c_us (
              Chain-set_prev (relinked bg c) bg.unused_head (some c) none bg.used_head us head_us
                used));
        unused = (
          refl,
          subst (λ o. Line cells4 o fs) (sym next_kept)
              (Line-set_prev cells3 (some c) none bg.unused_head fs (
                Line-set_cell cells2 c _ bg.unused_head fs c_fs (
                  Line-set_prev (relinked bg c) bg.unused_head (some c) bg.unused_head fs unused))),
        );
        unused_first = FirstFree-relink cells3 (some c);
        used_distinct = us_distinct;
        unused_distinct = (c_fs, fs_distinct);
        disjoint = Disjoint-sym (c ∷ fs) us (c_us, fs_us);
      }

module _ (bg : Backend) (c : ℕ) (bs fs : List ℕ) where
  abbrev next : Option ℕ
  next = (bg.cells c).next

  -- The first used cell.
  abbrev first_out : Backend
  first_out = record bg { used_head = next }

  unlink-first : IsPool bg (c ∷ bs) fs → unlink bg c ≡ some first_out
  unfolding unlink Chain
  unlink-first v =
      let (h, p, chain) = v.used in
      let first : is_cell bg.used_head c ≡ true = ap (λ o. is_cell o c) h ∙ ==_refl c in rw first

  first_out-IsPool : IsPool bg (c ∷ bs) fs → IsPool (give_back first_out c) bs (c ∷ fs)
  unfolding Chain Distinct Disjoint
  first_out-IsPool v =
      let (h, p, chain) = v.used in
      let (c_bs, bs_distinct) = v.used_distinct in
      let (c_fs, bs_fs) = v.disjoint in
      let next_fs = Chain-PtrApart bg.cells (some c) next bs fs bs_fs chain in
      give_back-IsPool first_out c bs fs
        (subst (λ b. Chain (relinked first_out c) b next bs) p
          (Chain-relink bg.cells (some c) (bg.cells c).prev next bs bs_distinct chain))
        (Line-set_prev bg.cells next (bg.cells c).prev bg.unused_head fs v.unused) bs_distinct
        v.unused_distinct c_bs c_fs bs_fs

  -- A used cell behind others.
  module _ (a : ℕ) (xs : List ℕ) (v : IsPool bg (a ∷ xs ++ c ∷ bs) fs) (front : ℕ)
      (u : Unlinked bg.cells none bg.used_head (a ∷ xs) c bs front) where
    abbrev later_out : Backend
    later_out = record bg { cells = set_next bg.cells front next }

    apart_front : front ≢ c
    unfolding Apart Distinct Disjoint
    apart_front =
        let (c_rest, d) = Distinct-without (a ∷ xs) c bs v.used_distinct in
        let (c_xs, c_bs) = Apart-append c (a ∷ xs) bs c_rest in
        (u.front_apart (c ∷ []) (Disjoint-sym (c ∷ []) (a ∷ xs) (c_xs, tt))).0

    relinked-linked_out : relinked later_out c ≡ linked_out bg.cells front c
    relinked-linked_out =
        ap (λ d. set_prev later_out.cells d.next d.prev)
          (set_cell-other bg.cells front c _ apart_front)
        ∙ ap (set_prev later_out.cells next) u.in_front

    unlink-later : unlink bg c ≡ some later_out
    unfolding unlink Chain Distinct Apart
    unlink-later =
        let (h, p, chain) = v.used in
        let (c_rest, d) = Distinct-without (a ∷ xs) c bs v.used_distinct in
        let n : a ≢ c = λ e. c_rest.0 (sym e) in
        let off : (a == c) ≡ false = ground arith in
        let later : is_cell bg.used_head c ≡ false = ap (λ o. is_cell o c) h ∙ off in
        rw (later, u.in_front)

    later_out-IsPool : IsPool (give_back later_out c) (a ∷ xs ++ bs) (c ∷ fs)
    later_out-IsPool =
        let (c_rest, rest_distinct) = Distinct-without (a ∷ xs) c bs v.used_distinct in
        let (c_fs, rest_fs) = Disjoint-without (a ∷ xs) c bs fs v.disjoint in
        let (xs_fs, bs_fs) = Disjoint-front (a ∷ xs) c bs fs v.disjoint in
        give_back-IsPool later_out c (a ∷ xs ++ bs) fs
          (subst (λ k. Chain k none bg.used_head (a ∷ xs ++ bs)) (sym relinked-linked_out)
            u.remaining)
          (subst (λ k. Line k bg.unused_head fs) (sym relinked-linked_out)
            (Line-set_prev later_out.cells next (some front) bg.unused_head fs
              (Line-set_cell bg.cells front _ bg.unused_head fs (u.front_apart fs xs_fs) v.unused)))
          rest_distinct v.unused_distinct c_rest c_fs rest_fs

given : ℕ → Option Backend → Option Backend
given x none = none
given x (some bg') = some (give_back bg' x)

-- In a valid pool whose used cells are `xs`, `c` and `bs`, in that order, `detouch_mem_cell` of `c`
-- succeeds and leaves a valid pool with the used cells `xs` and `bs`, and `c` in front of the
-- unused ones.
pub detouch_mem_cell-IsPool :
    (bg : Backend) (c : ℕ) (xs bs fs : List ℕ)
    → IsPool bg (xs ++ c ∷ bs) fs
    → (bg' : Backend) × (detouch_mem_cell bg c ≡ some bg') × IsPool bg' (xs ++ bs) (c ∷ fs)
unfolding detouch_mem_cell given
detouch_mem_cell-IsPool bg c [] bs fs v = (
  give_back (first_out bg c bs fs) c,
  ap (given c) (unlink-first bg c bs fs v),
  first_out-IsPool bg c bs fs v,
)
detouch_mem_cell-IsPool bg c (a ∷ xs) bs fs v =
    let (front, u) = Unlinked_lem bg.cells c bs none bg.used_head a xs v.used_distinct v.used in
    (
      give_back (later_out bg c bs fs a xs v front u) c,
      ap (given c) (unlink-later bg c bs fs a xs v front u),
      later_out-IsPool bg c bs fs a xs v front u,
    )
