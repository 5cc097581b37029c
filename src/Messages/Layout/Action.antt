-- ===== src/Messages/Layout/Action.antt =====
-- `struct p4_action`: the description (a type byte, a name of 128) and the parameter count.
use macsad.Prelude.{ℕ, ◌+◌}
use macsad.Memory.{Ptr}

abbrev pub size : ℕ
size = 130

abbrev pub type : Ptr → Ptr
type a = a

abbrev pub name : Ptr → Ptr
name a = a + 1

abbrev pub param_size : Ptr → Ptr
param_size a = a + 129
