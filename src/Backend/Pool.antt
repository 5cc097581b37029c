-- ===== src/Backend/Pool.antt =====
-- ctrl_plane_backend.c: the pool behaves as two lists of cells, those in use and those that are not.
use macsad.Prelude.{
  Apart, Distinct, ℕ, ◌≡◌, ◌∙◌, none, some, Option, List, [], ◌∷◌, ◌++◌, refl, sym, ap, subst,
  get_elem?, take, drop,
}
use macsad.Backend.{MemCell, Backend, set_prev, set_next, take_cell, touch_mem_cell}
use macsad.Backend.Chain.{
  Disjoint, Chain, Chain-set_cell, Chain-set_prev, Chain-relink, Chain-PtrApart, set_prev-other,
  Disjoint-cons, Disjoint-sym, set_cell-here,
}
use macsad.Backend.Line.{
  Line, FirstFree, Line-set_prev, Line-set_cell, Line-PtrApart, FirstFree-relink,
  FirstFree-set_cell, FirstFree-set_prev,
}

-- The used cells are `us`, the unused ones `fs`, from the first of each list on.
pub record IsPool (bg : Backend) (us fs : List ℕ) : Type 0 where
  pub used : Chain bg.cells none bg.used_head us
  pub unused : Line bg.cells bg.unused_head fs
  pub unused_first : FirstFree bg.cells bg.unused_head
  pub used_distinct : Distinct us
  pub unused_distinct : Distinct fs
  pub disjoint : Disjoint us fs

module _ (bg : Backend) (x : ℕ) (us fs : List ℕ) (v : IsPool bg us (x ∷ fs)) where
  abbrev rest : Option ℕ
  rest = (bg.cells x).next

  abbrev cells1 : ℕ → MemCell
  cells1 = set_prev bg.cells rest none

  abbrev cells2 : ℕ → MemCell
  cells2 = set_prev cells1 bg.used_head (some x)

  take_cell-IsPool : IsPool (take_cell bg x) (x ∷ us) fs
  unfolding take_cell Chain Line FirstFree Distinct Disjoint Apart
  take_cell-IsPool =
      let (head, line) = v.unused in
      let first = subst (FirstFree bg.cells) head v.unused_first in
      let (x_fs, fs_distinct) = v.unused_distinct in
      let (x_us, us_fs) = Disjoint-cons us x fs v.disjoint in
      let here = set_cell-here cells2 x (record (cells2 x) { next = bg.used_head }) in
      let rest_us = Line-PtrApart bg.cells rest fs us (Disjoint-sym us fs us_fs) line in
      let head_fs = Chain-PtrApart bg.cells none bg.used_head us fs us_fs v.used in
      let rest_x =
        Line-PtrApart bg.cells rest fs (x ∷ []) (Disjoint-sym (x ∷ []) fs (x_fs, tt)) line in
      let head_x =
        Chain-PtrApart bg.cells none bg.used_head us (x ∷ []) (Disjoint-sym (x ∷ []) us (x_us, tt))
          v.used in
      record {
        used = (
          refl,
          ap (λ d. d.prev) here
              ∙ ap (λ d. d.prev) (set_prev-other cells1 bg.used_head (some x) x head_x)
              ∙ ap (λ d. d.prev) (set_prev-other bg.cells rest none x rest_x)
              ∙ first,
          subst (λ d. Chain (set_next cells2 x bg.used_head) (some x) d.next us) (sym here)
              (Chain-set_cell cells2 x _ (some x) bg.used_head us x_us (
                Chain-relink cells1 none (some x) bg.used_head us v.used_distinct
                  (Chain-set_prev bg.cells rest none none bg.used_head us rest_us v.used))),
        );
        unused = Line-set_cell cells2 x _ rest fs x_fs (
            Line-set_prev cells1 bg.used_head (some x) rest fs
              (Line-set_prev bg.cells rest none rest fs line));
        unused_first =
            FirstFree-set_cell cells2 x _ rest fs x_fs
              (Line-set_prev cells1 bg.used_head (some x) rest fs
                (Line-set_prev bg.cells rest none rest fs line))
              (FirstFree-set_prev cells1 bg.used_head (some x) rest fs head_fs
                (Line-set_prev bg.cells rest none rest fs line) (FirstFree-relink bg.cells rest));
        used_distinct = (x_us, v.used_distinct);
        unused_distinct = fs_distinct;
        disjoint = (x_fs, us_fs);
      }

-- In a valid pool `touch_mem_cell` returns the first unused cell and moves it in front of the used
-- ones; it returns 0 and changes nothing if there is no unused cell.
pub touch_mem_cell-IsPool :
    (bg : Backend) (us fs : List ℕ)
    → IsPool bg us fs
    → let (cell, bg') = touch_mem_cell bg in
      (cell ≡ get_elem? fs 0) × IsPool bg' (take 1 fs ++ us) (drop 1 fs)
unfolding touch_mem_cell Line
touch_mem_cell-IsPool bg us [] v = rw (v.unused, touch_mem_cell) (refl, v)
touch_mem_cell-IsPool bg us (x ∷ fs) v =
    rw (v.unused.0, touch_mem_cell) (refl, take_cell-IsPool bg x us fs v)
