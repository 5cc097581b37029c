-- ===== src/Messages/Layout.antt =====
-- The structs of messages.h as a compiler for x86-64 lays them out: sizes with padding, and the
-- address of each field from the address of the struct. Multi-byte members are aligned to their
-- size; `char` arrays are not.
pub mod Header
pub mod Action
pub mod Param
pub mod SetDefault
pub mod AddEntry
pub mod Match
pub mod Digest
pub mod DigestField
use macsad.Prelude.{ℕ}

abbrev pub p4_version : ℕ
p4_version = 1

-- `enum p4_type`: the message types that the code builds or handles.
abbrev pub p4t_set_default_action : ℕ
p4t_set_default_action = 103

abbrev pub p4t_add_table_entry : ℕ
p4t_add_table_entry = 104

abbrev pub p4t_digest : ℕ
p4t_digest = 110

-- `enum p4_field_match_type`
abbrev pub p4_fmt_exact : ℕ
p4_fmt_exact = 0

abbrev pub p4_fmt_ternary : ℕ
p4_fmt_ternary = 1

abbrev pub p4_fmt_lpm : ℕ
p4_fmt_lpm = 2

abbrev pub p4_fmt_range : ℕ
p4_fmt_range = 3

abbrev pub p4_fmt_valid : ℕ
p4_fmt_valid = 4

abbrev pub p4_at_action : ℕ
p4_at_action = 0
