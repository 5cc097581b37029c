-- ===== src/Messages/Layout/DigestField.antt =====
-- `struct p4_digest_field`: name of 128, length (32 bits), value of 32.
use macsad.Prelude.{ℕ, ◌+◌}
use macsad.Memory.{Ptr}

abbrev pub size : ℕ
size = 164

abbrev pub name : Ptr → Ptr
name f = f

abbrev pub len : Ptr → Ptr
len f = f + 128

abbrev pub value : Ptr → Ptr
value f = f + 132
