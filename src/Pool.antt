-- ===== src/Pool.antt =====
-- The provider pool: crates/lb/src/pool.rs, `Pool` and `LbOutcomes`. Entries are shared by
-- reference count in the source; here a member is a handle into a table of entries, so an entry
-- that left the pool is still there for whoever holds its handle.
pub mod Defs
pub mod Members
pub mod Selection
pub mod Rotation
pub mod Evenness
