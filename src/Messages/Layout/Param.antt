-- ===== src/Messages/Layout/Param.antt =====
-- `struct p4_action_parameter`: name of 128, length (32 bits), bitmap of 128.
use macsad.Prelude.{ℕ, ◌+◌}
use macsad.Memory.{Ptr}

abbrev pub size : ℕ
size = 260

abbrev pub name : Ptr → Ptr
name p = p

abbrev pub len : Ptr → Ptr
len p = p + 128

abbrev pub bitmap : Ptr → Ptr
bitmap p = p + 132
