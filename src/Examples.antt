-- ===== src/Examples.antt =====
-- Runs of the code on concrete inputs, which meet the conditions of the theorems.
pub mod Controllers
pub mod Queues
pub mod Transfers
pub mod Decoding
pub mod Digests
pub mod Pools
pub mod Ternaries
pub mod Threads
pub mod Forwarding
pub mod Lookups
pub mod Interfaces
pub mod Vectors
