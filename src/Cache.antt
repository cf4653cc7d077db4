-- ===== src/Cache.antt =====
-- cache/memory_store.go: the in-memory cache. The definitions are in the children Memory, Hashes,
-- Locks and Tagged, the proofs in the others.
pub mod Memory
pub mod Hashes
pub mod Locks
pub mod Tagged
pub mod View
pub mod Refinement
pub mod Expiry
pub mod TagFlush
pub mod Holding
