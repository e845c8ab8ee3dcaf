-- ===== src/Provider/Defs.antt =====
-- pool.rs: the entry and its operations, each a function from the entry to the new entry.
use Prim.Native.Nat.{bit_and, bit_or, bit_xor}
use arkiv_community_lb.Base.Int.{ℤ, pos, neg, leb_ℤ, grow, shrink}
use arkiv_community_lb.Base.{
  ℕ, zero, suc, ◌+◌, ◌-◌, ◌/◌, ◌%◌, ◌^◌, min, String, Bool, true, false, not, Option, none, some,
  leb, ◌==◌, if◌then◌else◌, u64_mod, u64_max,
}

-- integrity.rs `Verdict`
pub data Verdict : Type 0 where
  matching stale divergence unknown : Verdict

-- Keys and addresses are the 32 and 20 bytes that the chain gives them, read as numbers.
pub data Source : Type 0 where
  static : Source
  marketplace : (address agreement_id port : ℕ) → Source

pub data Gate : Type 0 where
  health integrity : Gate

abbrev pub bit : Gate → ℕ
bit health = 1
bit integrity = 2

-- `!bit` on a u8
abbrev pub complement : Gate → ℕ
complement g = bit_xor 255 (bit g)

abbrev pub all_gates : ℕ
all_gates = bit_or (bit health) (bit integrity)

pub data HealthSignal : Type 0 where
  probe traffic lag chain by_integrity : HealthSignal

unfoldable pub signal_code : HealthSignal → ℕ
signal_code probe = 1
signal_code traffic = 2
signal_code lag = 3
signal_code chain = 4
signal_code by_integrity = 5

unfoldable pub from_code : ℕ → Option HealthSignal
from_code (suc zero) = some probe
from_code (suc (suc zero)) = some traffic
from_code (suc (suc (suc zero))) = some lag
from_code (suc (suc (suc (suc zero)))) = some chain
from_code (suc (suc (suc (suc (suc zero))))) = some by_integrity
from_code _ = none

abbrev pub as_str : HealthSignal → String
as_str probe = "probe"
as_str traffic = "traffic"
as_str lag = "lag"
as_str chain = "chain"
as_str by_integrity = "integrity"

unfoldable pub encode_verdict : Verdict → ℕ
encode_verdict matching = 1
encode_verdict stale = 2
encode_verdict divergence = 3
encode_verdict unknown = 4

unfoldable pub decode_verdict : ℕ → Option Verdict
decode_verdict (suc zero) = some matching
decode_verdict (suc (suc zero)) = some stale
decode_verdict (suc (suc (suc zero))) = some divergence
decode_verdict (suc (suc (suc (suc zero)))) = some unknown
decode_verdict _ = none

pub record Provider : Type 0 where
  pub id : String
  pub url : String
  pub source : Source
  pub eligibility : ℕ
  pub verdict : ℕ
  pub verdict_height : ℕ
  pub health_streak : ℤ
  pub height : ℕ
  pub chain_verified : Bool
  pub chain_check_due : Bool
  pub next_probe : ℕ
  pub unanswered_probe_streak : ℕ
  pub served : ℕ
  pub served_total : ℕ
  pub transport_failures : ℕ
  pub last_health_source : ℕ
  pub last_probe_ms : ℕ
  pub created : ℕ
  pub last_answer_ms : ℕ

-- `Provider::new`, at the instant `now`
unfoldable pub new : String → String → Source → ℕ → Provider
unfolding signal_code
new id url source now = record {
  id = id;
  url = url;
  source = source;
  eligibility = bit integrity;
  verdict = 0;
  verdict_height = 0;
  health_streak = pos 0;
  height = u64_max;
  chain_verified = false;
  chain_check_due = true;
  next_probe = now;
  unanswered_probe_streak = 0;
  served = 0;
  served_total = 0;
  transport_failures = 0;
  last_health_source = signal_code probe;
  last_probe_ms = u64_max;
  created = now;
  last_answer_ms = u64_max;
}

-- Reads of the eligibility byte.
unfoldable pub eligible : Provider → Bool
eligible p = p.eligibility == all_gates

unfoldable pub healthy : Provider → Bool
healthy p = not (bit_and p.eligibility (bit health) == 0)

unfoldable pub serving_wrong_data : Provider → Bool
serving_wrong_data p = bit_and p.eligibility (bit integrity) == 0

-- `set_eligibility`: what `eligible` said before and after, and the entry.
unfoldable pub set_eligibility : Gate → Bool → Provider → Bool × Bool × Provider
set_eligibility gate value p =
    let before = p.eligibility in
    let after = if value then bit_or before (bit gate) else bit_and before (complement gate) in
    (before == all_gates, after == all_gates, record p { eligibility = after })

-- The "eligibility flip" event of the log.
pub record Flip : Type 0 where
  pub now_eligible : Bool
  pub signal : HealthSignal

abbrev pub differ : Bool → Bool → Bool
differ true b = not b
differ false b = b

-- `if was != now` the event is logged.
abbrev pub flip_event : Bool → Bool → HealthSignal → Option Flip
flip_event was now source =
    if differ was now then some (record { now_eligible = now; signal = source }) else none

-- The new entry, and the event if there is one.
unfoldable pub set_eligibility_and_log :
    Gate → Bool → HealthSignal → Provider → Provider × Option Flip
unfolding set_eligibility
set_eligibility_and_log gate value source p =
    let (was, now, p') = set_eligibility gate value p in (p', flip_event was now source)

unfoldable pub set_health : Bool → Provider → Provider
unfolding set_eligibility
set_health value p = (set_eligibility health value p).2

unfoldable pub record_health_source : HealthSignal → Provider → Provider
unfolding signal_code
record_health_source source p = record p { last_health_source = signal_code source }

abbrev pub by_verdict : Verdict → Provider → Provider × Option Flip
by_verdict divergence p = set_eligibility_and_log integrity false by_integrity p
by_verdict matching p = set_eligibility_and_log integrity true by_integrity p
by_verdict stale p = (p, none)
by_verdict unknown p = (p, none)

unfoldable pub record_integrity : Verdict → ℕ → Provider → Provider × Option Flip
unfolding encode_verdict set_eligibility_and_log
record_integrity v height p =
    by_verdict v (record p { verdict = encode_verdict v; verdict_height = height })

unfoldable pub last_verdict : Provider → Option (Verdict × ℕ)
unfolding decode_verdict
last_verdict p = elim (decode_verdict p.verdict) [
  | none ↦ none
  | some v ↦ some (v, p.verdict_height)
]

-- One step of the streak: a result of the other kind starts it again.
abbrev pub step_streak : Bool → ℤ → ℤ
step_streak success streak = if success then grow streak else shrink streak

unfoldable pub record_health : Bool → ℕ → HealthSignal → Provider → Provider × Option Flip
unfolding record_health_source set_eligibility_and_log
record_health success flip_after source p =
    let streak = step_streak success p.health_streak in
    let p' = record (record_health_source source p) { health_streak = streak } in
    if leb_ℤ (pos flip_after) streak
    then set_eligibility_and_log health true source p'
    else if leb_ℤ streak (neg flip_after)
    then set_eligibility_and_log health false source p'
    else (p', none)

unfoldable pub quarantine : HealthSignal → Provider → Provider × Option Flip
unfolding record_health_source set_eligibility_and_log
quarantine source p =
    set_eligibility_and_log health false source
      (record (record_health_source source p) { health_streak = pos 0 })

unfoldable pub ineligibility_reason : Provider → Option String
unfolding eligible healthy from_code
ineligibility_reason p =
    if eligible p
    then none
    else if not (healthy p)
    then elim (from_code p.last_health_source) [ none ↦ none | some s ↦ some (as_str s) ]
    else some (as_str by_integrity)

-- Probes and the chain check.
unfoldable pub schedule_probe_now : ℕ → Provider → Provider
schedule_probe_now now p = record p { next_probe = now; chain_check_due = true }

unfoldable pub take_chain_check_due : Provider → Bool × Provider
take_chain_check_due p = (p.chain_check_due, record p { chain_check_due = false })

unfoldable pub record_unanswered_probe : Provider → Provider
record_unanswered_probe p = record p {
  unanswered_probe_streak = (p.unanswered_probe_streak + 1) % 2 ^ 32;
}

-- Milliseconds since the entry was made, cut to a u64.
abbrev pub age_ms : ℕ → Provider → ℕ
age_ms now p = (now - p.created) / 1000000 % u64_mod

unfoldable pub record_answer : ℕ → Provider → Provider
record_answer now p = record p { last_answer_ms = age_ms now p }

unfoldable pub record_answered_probe : ℕ → Provider → Provider
unfolding record_answer
record_answered_probe now p = record_answer now (record p { unanswered_probe_streak = 0 })

unfoldable pub answered_since : ℕ → Provider → Bool
answered_since since p =
    let last = p.last_answer_ms in
    if last == u64_max then false else leb ((since - p.created) / 1000000) last

-- `record_probe_duration`, of a time in nanoseconds: `u64::try_from(..).unwrap_or(u64::MAX - 1)`
unfoldable pub record_probe_duration : ℕ → Provider → Provider
record_probe_duration nanos p =
    let millis = nanos / 1000000 in
    record p { last_probe_ms = if leb millis u64_max then millis else u64_max - 1 }

abbrev pub unless_max : ℕ → Option ℕ
unless_max n = if n == u64_max then none else some n

unfoldable pub last_probe : Provider → Option ℕ
last_probe p = unless_max p.last_probe_ms

unfoldable pub record_height : ℕ → Provider → Provider
record_height height p = record p { height = min height (u64_max - 1) }

unfoldable pub last_height : Provider → Option ℕ
last_height p = unless_max p.height

-- The counts.
unfoldable pub record_served : ℕ → Provider → Provider
unfolding record_answer
record_served now p =
    record_answer now (record p {
      served = (p.served + 1) % u64_mod;
      served_total = (p.served_total + 1) % u64_mod;
    })

unfoldable pub subtract_served : ℕ → Provider → Provider
subtract_served count p = record p { served = p.served - count }

unfoldable pub seed_served : ℕ → Provider → Provider
seed_served count p = record p { served = (p.served + count) % u64_mod }

unfoldable pub record_transport_failure : Provider → Provider
record_transport_failure p = record p { transport_failures = (p.transport_failures + 1) % u64_mod }

unfoldable pub agreement_id : Provider → Option ℕ
agreement_id p = elim p.source [ static ↦ none | marketplace _ key _ ↦ some key ]
