-- ===== src/Agent.antt =====
-- crates/lb/src/marketplace/agent.rs: the agreements and counter records of this load balancer, kept
-- in memory as a copy of what the chain holds. The map from agreement keys to what is known of each is
-- a list of pairs, in any order; what the reader and the writer of the chain answer are parameters,
-- by the moment of the call.
pub mod Defs
pub mod Known
pub mod Reconcile
pub mod Counters
pub mod Discovery
pub mod Ports
pub mod Slots
pub mod Refresh
pub mod Starting
pub mod Renewal
pub mod Flushing
pub mod Handles
pub mod Closings
pub mod Billing
pub mod Seeding
pub mod Admitting
pub mod Adoption
pub mod Matching
