-- ===== src/Messages/Layout/Digest.antt =====
-- `struct p4_digest`: header, field list name of 128, field count; 137 bytes, padded to 140.
use macsad.Prelude.{ℕ, ◌+◌}
use macsad.Memory.{Ptr}

abbrev pub size : ℕ
size = 140

abbrev pub field_list_name : Ptr → Ptr
field_list_name d = d + 8

abbrev pub list_size : Ptr → Ptr
list_size d = d + 136
