-- ===== src/Provider.antt =====
-- One provider's entry: crates/lb/src/pool.rs, `Provider`, `Gate`, `HealthSignal`, and the
-- verdict of crates/lb/src/integrity.rs that the entry records. An atomic is a field, and one
-- atomic update is one new value of it; an `Instant` is a number of nanoseconds.
pub mod Defs
pub mod Gates
pub mod Events
pub mod History
pub mod Streak
pub mod Counters
pub mod Readings
