-- ===== src/Messages/Layout/Match.antt =====
-- The five `struct p4_field_match_*`. All start with the match header (name of 128, type), then one
-- byte of padding and a 16-bit length, which is called `prefix_length` in the lpm struct.
use macsad.Prelude.{ℕ, ◌+◌}
use macsad.Memory.{Ptr}

abbrev pub name : Ptr → Ptr
name f = f

abbrev pub type : Ptr → Ptr
type f = f + 128

abbrev pub len : Ptr → Ptr
len f = f + 130

-- `bitmap` of the exact and the lpm struct
abbrev pub bitmap : Ptr → Ptr
bitmap f = f + 132

-- `priority`, `is_signed` and `is_valid`, the byte behind the length in the other structs
abbrev pub flag : Ptr → Ptr
flag f = f + 132

abbrev pub size_exact : ℕ
size_exact = 388

abbrev pub size_lpm : ℕ
size_lpm = 388

abbrev pub size_range : ℕ
size_range = 646

abbrev pub size_ternary : ℕ
size_ternary = 646

abbrev pub size_valid : ℕ
size_valid = 390
