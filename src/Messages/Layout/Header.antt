-- ===== src/Messages/Layout/Header.antt =====
-- `struct p4_header`: version, type, length (16 bits), xid (32 bits).
use macsad.Prelude.{ℕ, ◌+◌}
use macsad.Memory.{Ptr}

abbrev pub size : ℕ
size = 8

abbrev pub version : Ptr → Ptr
version h = h

abbrev pub type : Ptr → Ptr
type h = h + 1

abbrev pub len : Ptr → Ptr
len h = h + 2

abbrev pub xid : Ptr → Ptr
xid h = h + 4
