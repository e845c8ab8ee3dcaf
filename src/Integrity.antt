-- ===== src/Integrity.antt =====
-- crates/lb/src/integrity.rs: what is compared, a round, and what a round comes to.
pub mod Entities
pub mod Judge
pub mod Defs
pub mod Confirm
pub mod Verdicts
pub mod Rounds
pub mod Order
