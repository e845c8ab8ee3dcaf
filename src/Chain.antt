-- ===== src/Chain.antt =====
-- crates/lb/src/chain: the records on the chain, what is asked of it, and what is written to it.
pub mod Attributes
pub mod Reader
pub mod Records
pub mod Quoting
pub mod RoundTrip
pub mod Writer
