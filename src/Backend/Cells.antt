-- ===== src/Backend/Cells.antt =====
-- Commands on the data of a memory cell, one after the other.
use macsad.Prelude.{
  ℕ, ◌≡◌, ◌∙◌, ◌==◌, Bool-cases, inl, inr, arith, sym, refl, ap, List, true, false, none, some,
  Option, Bool, ==_refl,
}
use macsad.Prelude.Int.{ℤ, pos}
use macsad.Memory.{Mem, Ptr, Cmd, ◌>>=◌, nonnull}
use macsad.Messages.Netconv.{netconv_p4_header}
use macsad.Fifo.{fifo_add_msg}
use macsad.Backend.{
  MemCell, Backend, Digest, set_cell, set_prev, on_cell, touch_mem_cell, take_cell, create_digest,
  digest_in, fill_digest, add_digest_field, fill_digest_field, send_digest,
}

-- The data of cell `x` is `m`, and the cell is of the size of the pool's cells.
pub record Holds (x : ℕ) (m : Mem) (bg : Backend) : Type 0 where
  pub data_held : (bg.cells x).data_bytes ≡ m
  pub size_held : (bg.cells x).size ≡ 2048

module _ (x : ℕ) where
  unfoldable pub with_data : Mem → Backend → Backend
  unfolding set_cell
  with_data m bg = record bg {
    cells = set_cell bg.cells x (record (bg.cells x) { data_bytes = m });
  }

  pub with_data-Holds : (m m' : Mem) (bg : Backend) → Holds x m bg → Holds x m' (with_data m' bg)
  unfolding with_data set_cell
  with_data-Holds m m' bg h = record {
    data_held = rw (==_refl x);
    size_held = rw (==_refl x) h.size_held;
  }

  on_cell_lem :
      {A : Type 0} (c : Cmd A) (bg : Backend) (m m' : Mem) (a : A)
      → Holds x m bg
      → c m ≡ some (a, m')
      → on_cell x c bg ≡ some (a, with_data m' bg)
  unfolding with_data set_cell
  on_cell_lem c bg m m' a h e = ap next (ap c h.data_held ∙ e)
    where
      next : {A : Type 0} → Option (A × Mem) → Option (A × Backend)
      next none = none
      next (some (b, m'')) = some (b, with_data m'' bg)

-- What the links of the lists do not change in a cell.
abbrev body : MemCell → Mem × ℕ
body c = (c.data_bytes, c.size)

set_cell-body :
    (cells : ℕ → MemCell) (z y : ℕ) (v : MemCell)
    → body v ≡ body (cells z)
    → body (set_cell cells z v y) ≡ body (cells y)
unfolding set_cell
set_cell-body cells z y v e = elim (Bool-cases (y == z)) [
  | inl there ↦ let at : y ≡ z = ground arith in rw there (e ∙ ap (λ i. body (cells i)) (sym at))
  | inr elsewhere ↦ rw elsewhere
]

set_prev-body :
    (cells : ℕ → MemCell) (o p : Option ℕ) (y : ℕ) → body (set_prev cells o p y) ≡ body (cells y)
set_prev-body cells none p y = refl
set_prev-body cells (some z) p y = set_cell-body cells z y _ refl

-- The cell at the head of the unused list is taken; no cell's data or size changes.
pub take_cell-body : (bg : Backend) (x y : ℕ) → body ((take_cell bg x).cells y) ≡ body (bg.cells y)
unfolding take_cell
take_cell-body bg x y =
    let rest = (bg.cells x).next in
    let cells1 = set_prev bg.cells rest none in
    set_cell-body (set_prev cells1 bg.used_head (some x)) x y _ refl
    ∙ set_prev-body cells1 bg.used_head (some x) y
    ∙ set_prev-body bg.cells rest none y

module _ (bg : Backend) (x : ℕ) (head : bg.unused_head ≡ some x) (m : Mem) (h : Holds x m bg) where
  pub take_cell-Holds : Holds x m (take_cell bg x)
  take_cell-Holds = record {
    data_held = ap (λ b. b.0) (take_cell-body bg x x) ∙ h.data_held;
    size_held = ap (λ b. b.1) (take_cell-body bg x x) ∙ h.size_held;
  }

  touch_mem_cell-some : touch_mem_cell bg ≡ (some x, take_cell bg x)
  unfolding touch_mem_cell
  touch_mem_cell-some = rw (head, touch_mem_cell)

  pub create_digest_lem :
      (name : List ℕ) (m' : Mem) (digest : Option Ptr)
      → fill_digest 2048 name m ≡ some (some digest, m')
      → create_digest true name bg
        ≡ some (some (record { mem_cell = x; digest = digest }), with_data x m' (take_cell bg x))
  unfolding create_digest
  create_digest_lem name m' digest e =
      ap (digest_in name) touch_mem_cell-some
      ∙ ap (λ size. made (on_cell x (fill_digest size name) (take_cell bg x)))
          take_cell-Holds.size_held
      ∙ ap made (on_cell_lem x (fill_digest 2048 name) (take_cell bg x) m m' _ take_cell-Holds e)
    where
      made : Option (Option (Option Ptr) × Backend) → Option (Option Digest × Backend)
      made none = none
      made (some (none, bg')) = some (none, bg')
      made (some (some d, bg')) = some (some (record { mem_cell = x; digest = d }), bg')

module _ (bg : Backend) (x : ℕ) (m m' : Mem) (h : Holds x m bg) where
  pub add_digest_field_lem :
      (digest : Option Ptr) (value : List ℕ) (length : ℕ)
      → fill_digest_field digest 2048 value length m ≡ some (true, m')
      → let d : Digest = record { mem_cell = x; digest = digest } in
        add_digest_field d value length bg ≡ some (some d, with_data x m' bg)
  unfolding add_digest_field
  add_digest_field_lem digest value length e =
      ap (λ size. added (on_cell x (fill_digest_field digest size value length) bg)) h.size_held
      ∙ ap added (on_cell_lem x (fill_digest_field digest 2048 value length) bg m m' true h e)
    where
      added : Option (Bool × Backend) → Option (Option Digest × Backend)
      added none = none
      added (some (false, bg')) = some (none, bg')
      added (some (true, bg')) = some (some (record { mem_cell = x; digest = digest }), bg')

  -- The backend once the cell is in the output queue.
  abbrev pub sent : Backend
  sent = record (with_data x m' bg) { output_queue = fifo_add_msg bg.output_queue x }

  pub send_digest_lem :
      (digest : Option Ptr) (p : Ptr)
      → (nonnull digest >>= netconv_p4_header) m ≡ some (p, m')
      → send_digest (record { mem_cell = x; digest = digest }) bg ≡ some (pos 0, sent)
  unfolding send_digest with_data
  send_digest_lem digest p e =
      ap queued (on_cell_lem x (nonnull digest >>= netconv_p4_header) bg m m' p h e)
    where
      queued : Option (Ptr × Backend) → Option (ℤ × Backend)
      queued none = none
      queued (some (_, bg')) =
          some (pos 0, record bg' { output_queue = fifo_add_msg bg'.output_queue x })
