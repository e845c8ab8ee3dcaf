-- ===== src/Lib.antt =====
-- The load balancer of the Arkiv community endpoint (crates/lb): it forwards JSON-RPC requests
-- to providers' nodes, probes them, compares their data with a reference, and counts what they
-- serve.
--
-- Base: what the modules share: Base/Tests the Boolean tests and the limits of the machine
--   words, Base/Lists lists measured by native numbers, Base/Int the i64 of the health streak.
-- Provider: crates/lb/src/pool.rs, `Provider`. Provider/Defs has the entry as a record, with one
--   function for each method; Provider/Gates reads the two bits of the eligibility byte;
--   Provider/Events has the updates of an entry as a data type, so that a history is a list of
--   them, in the order in which the atomics took them. Provider/History, Provider/Streak,
--   Provider/Counters and Provider/Readings prove what a history comes to.
-- Pool: crates/lb/src/pool.rs, `Pool` and `LbOutcomes`. An `Arc<Provider>` is a handle into a
--   table of entries, so that every holder of a handle sees an update; a removed entry stays in
--   the table. Pool/Selection, Pool/Rotation and Pool/Evenness are about `next_eligible`,
--   Pool/Members about the membership over any changes.
-- Jsonrpc, Denylist, Forwarder: crates/lb/src/jsonrpc.rs, denylist.rs and forwarder.rs. A body
--   is the list of its bytes. Denylist/Search and Forwarder/Answers hold the theorems.
-- Proxy: crates/lb/src/proxy.rs. `forward_with_failover` takes for each turn of its loop what
--   the outer world does in it: the clock, the provider's response, other tasks' updates of the
--   entries and other selections. Proxy/History and Proxy/Endings hold the theorems.
-- Monitor: crates/lb/src/monitor.rs. `visit` is what a sweep does with one provider, `probe_all`
--   the sweep, `tick` a turn of `run`. Monitor/Query judges a probe's response and
--   Monitor/Quantity reads its hex quantity; Monitor/Backoff, Monitor/Chain and Monitor/Visits
--   hold the theorems.
-- Integrity: crates/lb/src/integrity.rs, with `BlockFields` of chain/reader.rs and `ArkivEntity`
--   of chain/records.rs. Integrity/Entities has what is compared, Integrity/Judge what one
--   look says, Integrity/Defs a round, with the two looks as inputs; Integrity/Confirm,
--   Integrity/Rounds, Integrity/Verdicts and Integrity/Order hold the theorems.
-- Stats: crates/lb/src/stats.rs, the rings of hourly buckets and the tick over all of them.
--   Stats/Rings and Stats/Pairs hold the theorems.
-- Chain: crates/lb/src/chain. Chain/Attributes and Chain/Records are records.rs: the typed
--   attributes, and how each record is encoded and decoded; Chain/RoundTrip has the theorem.
--   Chain/Reader is reader.rs, from a query to the answer that is read of it, with the quoting of
--   its texts in Chain/Quoting. Chain/Writer is writer.rs, the bodies and the statuses, and
--   Chain/Writer/Sending its `send`; Chain/Writer/Split and Chain/Writer/Answers hold the
--   theorems.
-- Config: crates/lb/src/config.rs, the validation and the tunnel ports. Config/Accepted has the
--   theorem.
-- Agent: crates/lb/src/marketplace/agent.rs. The mutex around `agreements` and the pool are one
--   state, and each function of the agent goes from that state to the next. Agent/Defs has the
--   state, Agent/Reconcile the reconcile of the agreements, Agent/Counters that of the counter
--   records, Agent/Discovery the poll and the acceptances, Agent/Refresh the refresh and the
--   admission's steps, Agent/Flushing the flush, Agent/Starting the start. The lemmas are in
--   Agent/Known, Agent/Adoption, Agent/Ports, Agent/Handles and Agent/Closings, the theorems in
--   Agent/Matching, Agent/Slots, Agent/Renewal, Agent/Billing and Agent/Seeding. An acceptance and a
--   reconcile add entries to the Pool, an end removes one, and a flush subtracts from the
--   Provider's count.
--   Agent/Admitting has the admission route of crates/lb/src/admin.rs over the agent's memory, with
--   its theorem: the reconcile, Admission and the steps that follow an admission, put together.
-- Admin: crates/lb/src/admin.rs, the status rows and the forward to one provider, which reads the
--   pool and makes one attempt.
-- Admission: crates/lb/src/marketplace/admission.rs, and the decision of the admission route of
--   crates/lb/src/admin.rs, over any agreements; Admission/Entitled holds the theorem.
-- Tests and its children apply the theorems at concrete inputs.
--
-- Machine words: a u64 or u32 that the source adds to without a check is taken modulo its size;
-- the usize is 64 bits wide. Instants and durations are nanoseconds as numbers without a bound,
-- but for `Duration::MAX` in the backoff. Strings of keys, addresses and hashes are numbers
-- where only their equality matters.
--
-- Fuel: the loops of the source are bounded by the length of a list or by the number of
-- attempts, and the recursion is on that. The one loop on fuel is the queue of `send`, with a unit
-- for each call: twice the operations of the batch, less one, is enough, since each split leaves
-- one split less to make.
--
-- Parameters: the parse of a JSON body, the parse of a url, the text of an address, the equality
-- of JSON values, the printing and the parse of keys, addresses, bytes and payloads, the parse
-- and the recovery of signatures, the random index of a sampled key, and all that the network,
-- the host and the clock answer. A call to the chain is answered by its moment, a number that
-- grows from call to call, so that two calls may be answered differently.
--
-- Order: a hash map is a list of pairs in any order, and no theorem asks for one. Between two
-- calls of a flush the other tasks may change the state; elsewhere in the agent nothing else
-- changes it during an operation.
--
-- Not modelled: the admin endpoint's health and stats routes and the start of the service (see the
-- crate's modules of these names); the sending of requests over HTTP, the timers, the reading of the
-- configuration file and its defaults, the report and the file of the stats; log lines other
-- than the eligibility flip, the low balance's warning among them; the programs in settle,
-- writer and crates/rig.
pub mod Base
pub mod Provider
pub mod Pool
pub mod Jsonrpc
pub mod Denylist
pub mod Forwarder
pub mod Proxy
pub mod Integrity
pub mod Chain
pub mod Config
pub mod Agent
pub mod Admin
pub mod Admission
pub mod Monitor
pub mod Tests
pub mod Stats
