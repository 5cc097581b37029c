-- ===== src/Messages/Layout/SetDefault.antt =====
-- `struct p4_set_default_action`: header, table name of 128, action; 266 bytes, padded to 268.
use macsad.Prelude.{ℕ, ◌+◌}
use macsad.Memory.{Ptr}

abbrev pub size : ℕ
size = 268

abbrev pub table_name : Ptr → Ptr
table_name s = s + 8

abbrev pub action : Ptr → Ptr
action s = s + 136
