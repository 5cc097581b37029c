-- ===== src/Backend.antt =====
-- ctrl_plane_backend.c: the switch's pool of memory cells, and the digests that it sends. The
-- cells' parts of `msg_buffer` do not overlap, so each cell has a memory of its own, addressed from
-- 0. A cell is named by a number; the NULL of a list is `none`. Each of `touch_mem_cell` and
-- `detouch_mem_cell` is one critical section of `memlock`; signals change no field.
pub mod Chain
pub mod Line
pub mod Unlink
pub mod Pool
pub mod Release
pub mod Create
pub mod Reach
pub mod Cells
pub mod Learned
use macsad.Prelude.{
  ℕ, suc, zero, ◌+◌, ◌-◌, ◌*◌, ◌/◌, ◌%◌, ◌^◌, Bool, true, false, Option, none, some, List, [], ◌∷◌,
  ◌++◌, ltb, ◌==◌, if◌then◌else◌, length, take,
}
use macsad.Prelude.Int.{ℤ, pos, negsuc}
use macsad.Memory.{Mem, Ptr, Cmd, pure, ◌>>=◌, ◌>>◌, nonnull, memcpy, store8, store32}
use macsad.Messages.{create_p4_header, create_p4_digest, add_p4_digest_field}
use macsad.Messages.Layout
use macsad.Messages.Netconv.{netconv_p4_header, netconv_p4_digest_field}
use macsad.Fifo.{Fifo, fifo_add_msg}

-- `mem_cell_t`
pub record MemCell : Type 0 where
  pub data_bytes : Mem
  pub size : ℕ
  pub next : Option ℕ
  pub prev : Option ℕ

-- `backend_t`: the pool and the queues of cells. The descriptors, the thread pool, the locks and the
-- two flags are left out.
pub record Backend : Type 0 where
  pub cells : ℕ → MemCell
  pub unused_head : Option ℕ
  pub used_head : Option ℕ
  pub input_queue : Fifo ℕ
  pub output_queue : Fifo ℕ

-- An assignment to a cell.
unfoldable pub set_cell : (ℕ → MemCell) → ℕ → MemCell → ℕ → MemCell
set_cell cells x v y = if y == x then v else cells y

-- `x->prev = p` and `x->next = n` for an `x` that is not NULL
abbrev pub set_prev : (ℕ → MemCell) → Option ℕ → Option ℕ → ℕ → MemCell
set_prev cells none p = cells
set_prev cells (some x) p = set_cell cells x (record (cells x) { prev = p })

abbrev pub set_next : (ℕ → MemCell) → ℕ → Option ℕ → ℕ → MemCell
set_next cells x n = set_cell cells x (record (cells x) { next = n })

-- The part of `touch_mem_cell` for a pool with an unused cell, `result`, the first of them.
unfoldable pub take_cell : Backend → ℕ → Backend
unfolding set_cell
take_cell bg result =
    let rest = (bg.cells result).next in
    let cells = set_prev (set_prev bg.cells rest none) bg.used_head (some result) in
    record bg {
      cells = set_next cells result bg.used_head;
      unused_head = rest;
      used_head = some result;
    }

unfoldable pub touch_mem_cell : Backend → Option ℕ × Backend
unfolding take_cell
touch_mem_cell bg = elim bg.unused_head [
  | none ↦ (none, bg)
  | some result ↦ (some result, take_cell bg result)
]

-- `x == cell` for a pointer that may be NULL
abbrev pub is_cell : Option ℕ → ℕ → Bool
is_cell none cell = false
is_cell (some x) cell = x == cell

-- The cell leaves the used list; `none` is the fault of a cell that is not the first of it and has
-- no cell in front.
unfoldable pub unlink : Backend → ℕ → Option Backend
unfolding set_cell
unlink bg cell =
    if is_cell bg.used_head cell
    then some (record bg { used_head = (bg.cells cell).next })
    else elim (bg.cells cell).prev [
      | none ↦ none
      | some p ↦ some (record bg { cells = set_next bg.cells p (bg.cells cell).next })
    ]

-- The part of `detouch_mem_cell` behind that: the cell behind gets the one in front, and the cell
-- goes to the front of the unused list.
unfoldable pub give_back : Backend → ℕ → Backend
unfolding set_cell
give_back bg cell =
    let cells1 = set_prev bg.cells (bg.cells cell).next (bg.cells cell).prev in
    let cells2 = set_prev cells1 bg.unused_head (some cell) in
    let cells3 = set_next cells2 cell bg.unused_head in
    record bg { cells = set_prev cells3 (some cell) none; unused_head = some cell }

unfoldable pub detouch_mem_cell : Backend → ℕ → Option Backend
unfolding give_back
detouch_mem_cell bg cell = elim (unlink bg cell) [
  | none ↦ none
  | some bg' ↦ some (give_back bg' cell)
]

-- `digest_t`: the cell, and the address of the digest in it, which is NULL if it did not fit.
pub record Digest : Type 0 where
  pub mem_cell : ℕ
  pub digest : Option Ptr

-- A command on the data of a cell.
abbrev pub on_cell {ℓ} : {A : Type ℓ} → ℕ → Cmd A → Backend → Option (A × Backend)
on_cell x c bg = elim (c (bg.cells x).data_bytes) [
  | none ↦ none
  | some (a, m) ↦
      some (a, record bg { cells = set_cell bg.cells x (record (bg.cells x) { data_bytes = m }) })
]

-- `strncpy(p, name, n)`: the string, filled up with zeros.
unfoldable pub strncpy_bytes : List ℕ → ℕ → List ℕ
strncpy_bytes name zero = []
strncpy_bytes [] (suc n) = 0 ∷ strncpy_bytes [] n
strncpy_bytes (c ∷ cs) (suc n) = c ∷ strncpy_bytes cs n

-- The part of `create_digest` on the data of its cell; the result is the digest's address unless
-- the name is too long.
unfoldable pub fill_digest : ℕ → List ℕ → Cmd (Option (Option Ptr))
unfolding create_p4_header create_p4_digest strncpy_bytes
fill_digest size name = do
  h ← create_p4_header 0 0 size
  digest ← create_p4_digest 0 0 size
  if ltb 127 (length name) then pure none else do
    d ← nonnull digest
    memcpy (Layout.Digest.field_list_name d) (strncpy_bytes name 128)
    store8 (Layout.Digest.field_list_name d + 127) 0
    pure (some digest)

-- A cell that was taken is not given back when the name is too long.
unfoldable pub digest_in : List ℕ → Option ℕ × Backend → Option (Option Digest × Backend)
unfolding set_cell
digest_in name (none, bg) = some (none, bg)
digest_in name (some x, bg) = elim (on_cell x (fill_digest (bg.cells x).size name) bg) [
  | none ↦ none
  | some (none, bg') ↦ some (none, bg')
  | some (some digest, bg') ↦ some (some (record { mem_cell = x; digest = digest }), bg')
]

-- `allocated` tells whether `malloc` returned memory, `name` is a C string.
unfoldable pub create_digest : Bool → List ℕ → Backend → Option (Option Digest × Backend)
unfolding digest_in
create_digest allocated name bg =
    if allocated then digest_in name (touch_mem_cell bg) else some (none, bg)

-- `uint32_t bytelength = (length-1)/8+1`
abbrev pub bytelength : ℕ → ℕ
bytelength length = (length + (2 ^ 32 - 1)) % 2 ^ 32 / 8 + 1

-- The part of `add_digest_field` on the data of the cell; the result is whether the value is short
-- enough. The field has been added when it is not. `value` is the bytes from the pointer on.
unfoldable pub fill_digest_field : Option Ptr → ℕ → List ℕ → ℕ → Cmd Bool
unfolding add_p4_digest_field netconv_p4_digest_field
fill_digest_field digest size value length = do
  d ← nonnull digest
  dfield ← add_p4_digest_field d size
  if ltb 32 (bytelength length) then pure false else do
    f ← nonnull dfield
    memcpy (Layout.DigestField.value f) (take (bytelength length) value)
    store32 (Layout.DigestField.len f) length
    netconv_p4_digest_field f
    pure true

-- The result is the digest, or `none` for the 0 of a value that is too long.
unfoldable pub add_digest_field : Digest → List ℕ → ℕ → Backend → Option (Option Digest × Backend)
unfolding set_cell
add_digest_field d value length bg =
    elim (on_cell d.mem_cell (fill_digest_field d.digest (bg.cells d.mem_cell).size value length)
      bg) [
        | none ↦ none
        | some (false, bg') ↦ some (none, bg')
        | some (true, bg') ↦ some (some d, bg')
      ]

-- The queue is returned whether or not there was room, so the result is always 0.
unfoldable pub send_digest : Digest → Backend → Option (ℤ × Backend)
unfolding set_cell
send_digest d bg = elim (on_cell d.mem_cell (nonnull d.digest >>= netconv_p4_header) bg) [
  | none ↦ none
  | some (_, bg') ↦
      some (pos 0, record bg' { output_queue = fifo_add_msg bg'.output_queue d.mem_cell })
]

-- odp_primitives.c, `generate_digest`, which the generated code calls: the fields are the bytes from
-- each offset on and the width in bits; a digest that is NULL faults.
unfoldable pub add_fields :
    List (List ℕ × ℕ) → Option Digest × Backend → Option (Option Digest × Backend)
add_fields [] (d, bg) = some (d, bg)
add_fields (f ∷ fields) (none, bg) = none
add_fields ((value, width) ∷ fields) (some d, bg) = elim (add_digest_field d value width bg) [
  | none ↦ none
  | some (d', bg') ↦ add_fields fields (d', bg')
]

-- The result of `send_digest` is not looked at.
unfoldable pub send_made : Option Digest × Backend → Option Backend
send_made (none, bg) = none
send_made (some d, bg) = elim (send_digest d bg) [ none ↦ none | some (rval, bg') ↦ some bg' ]

unfoldable pub generate_digest : Bool → List ℕ → List (List ℕ × ℕ) → Backend → Option Backend
generate_digest allocated name fields bg = elim (create_digest allocated name bg) [
  | none ↦ none
  | some made ↦ elim (add_fields fields made) [ none ↦ none | some filled ↦ send_made filled ]
]
