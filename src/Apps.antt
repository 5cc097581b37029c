-- ===== src/Apps.antt =====
-- The controller programs.
pub mod Build
pub mod L2
pub mod L2L3
pub mod L3
pub mod L3Nhg
pub mod NatDw
pub mod NatUp
