-- ===== src/Messages/Layout/AddEntry.antt =====
-- `struct p4_add_table_entry`: header, table name of 128, match count; 137 bytes, padded to 140.
use macsad.Prelude.{ℕ, ◌+◌}
use macsad.Memory.{Ptr}

abbrev pub size : ℕ
size = 140

abbrev pub table_name : Ptr → Ptr
table_name t = t + 8

abbrev pub read_size : Ptr → Ptr
read_size t = t + 136
