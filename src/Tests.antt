-- ===== src/Tests.antt =====
-- The main theorems at concrete inputs, and runs of the definitions.
mod Chain
mod Agent
mod Market
mod Rounds
mod Tunnel
use arkiv_community_lb.Base.{
  min, ℕ, ◌+◌, ◌-◌, ◌*◌, ◌^◌, ◌≡◌, ◌≢◌, ◌↔◌, refl, inl, inr, Bool, true, false, Option, none, some,
  List, [], ◌∷◌, length, any, filter, arith, u64_max,
}
use arkiv_community_lb.Jsonrpc.{Json, text, object, end, field}
use arkiv_community_lb.Denylist.{codes, denied_names, denied, contains_ignore_case}
use arkiv_community_lb.Denylist.Search.{Occurs, Denies, contains-Occurs, denied-Denies}
use arkiv_community_lb.Forwarder.{done, chunk, answer, response, attempt}
use arkiv_community_lb.Forwarder.Answers.{Answers, attempt-Answers}
use arkiv_community_lb.Provider.Defs.{
  Provider, static, health, integrity, HealthSignal, probe, traffic, lag, matching, divergence,
  eligible, record_integrity, last_verdict, record_height, last_height, record_probe_duration,
  last_probe, record_answer, answered_since, subtract_served,
}
use arkiv_community_lb.Provider.Defs
use arkiv_community_lb.Provider.Gates.{is_open, GatesByte}
use arkiv_community_lb.Provider.Events.{
  Event, health_result, quarantined, judged, served_at, probe_unanswered, run,
}
use arkiv_community_lb.Provider.History.{
  Alternates, last_ruling, run-Alternates, run-last_ruling, run_closed,
}
use arkiv_community_lb.Provider.Streak.{
  after_results, said, signed_run, admitted, after_results-eq-runs,
}
use arkiv_community_lb.Provider.Counters.{served_in, Counts, run-Counts, closed-run}
use arkiv_community_lb.Provider.Readings.{
  last_verdict-record_integrity, last_probe-record_probe_duration,
}
use arkiv_community_lb.Pool.Defs.{Pool, add, no_members, remove, next_eligible, in_rotation}
use arkiv_community_lb.Pool.Selection.{Picks, next_eligible_finds}
use arkiv_community_lb.Pool.Members.{
  IsWellFormed, added, here, next, Reach-IsWellFormed, removed_never_selected,
}
use arkiv_community_lb.Pool.Evenness.{lap_order, picks, picks_lap}
use arkiv_community_lb.Proxy.{Settings, Turn, forward_with_failover}
use arkiv_community_lb.Proxy.History.{forward_admits_nobody}
use arkiv_community_lb.Monitor.{Config, Replies, probe_delay, visit, chain_cleared}
use arkiv_community_lb.Monitor.Query.{query, Replied, query-Replied}
use arkiv_community_lb.Monitor.Backoff.{probe_delay_doubles}
use arkiv_community_lb.Monitor.Chain.{Deed, visited, live, live-eligible-chain_verified}
use arkiv_community_lb.Monitor.Visits.{Recorded, visit-Recorded}
use arkiv_community_lb.Monitor.Quantity.{
  hex_quantity, within_u64, value_from, hex_quantity-value, hex_quantity-plus,
}

-- A provider as the configuration brings it in, one that both gates let through, and a history.
abbrev newcomer : Provider
unfolding Defs.new
newcomer = Defs.new "node-a" "http://10.0.0.1:8545/" static 0

abbrev trusted : Provider
trusted = record newcomer { eligibility = 3 }

abbrev history : List Event
history =
    health_result true 1 probe
    ∷ served_at 5
    ∷ judged divergence 100
    ∷ served_at 9
    ∷ probe_unanswered
    ∷ []

run-last_ruling_example :
    is_open integrity (run history trusted).0 ≡ last_ruling history (is_open integrity trusted)
run-last_ruling_example = run-last_ruling history trusted (omega arith)

run-Alternates_example :
    GatesByte (run history newcomer).0
    × Alternates (eligible newcomer) (run history newcomer).1 (eligible (run history newcomer).0)
unfolding newcomer
run-Alternates_example = run-Alternates history newcomer (omega arith)

run_closed_example :
    is_open health (run (judged matching 7 ∷ quarantined lag ∷ []) newcomer).0 ≡ false
unfolding is_open newcomer
run_closed_example =
    run_closed (judged matching 7 ∷ quarantined lag ∷ []) newcomer (omega arith) refl refl

abbrev results : List (Bool × HealthSignal)
results = (false, lag) ∷ (true, probe) ∷ (true, probe) ∷ (false, traffic) ∷ []

after_results-eq-runs_example :
    ((after_results 2 results newcomer).health_streak ≡ signed_run (said results))
    × (is_open health (after_results 2 results newcomer) ≡ admitted 2 (said results))
unfolding is_open newcomer
after_results-eq-runs_example =
    after_results-eq-runs 2 results newcomer (omega arith) refl refl (omega arith) (omega arith)

run-Counts_example :
    Counts
      (run history newcomer).0
      (newcomer.served + served_in history)
      (newcomer.served_total + served_in history)
unfolding newcomer
run-Counts_example = run-Counts history newcomer refl (omega arith) (omega arith)

-- With a period behind it, and one before that.
abbrev serving : Provider
unfolding newcomer
serving = record newcomer { served = 6; served_total = 40 }

closed-run_example :
    Counts (subtract_served 6 (run history serving).0) (served_in history) (40 + served_in history)
unfolding serving newcomer
closed-run_example = closed-run history serving refl (omega arith) (omega arith)

last_probe-record_probe_duration_example :
    (last_probe (record_probe_duration 12000000 newcomer) ≡ none) ↔ (12 ≡ u64_max)
last_probe-record_probe_duration_example = last_probe-record_probe_duration 12000000 newcomer

-- A pool of two members, the second one in rotation.
abbrev two : Pool
unfolding add no_members
two = (add trusted (add newcomer (no_members (λ _. newcomer))).1).1

two-IsWellFormed : IsWellFormed two
unfolding two
two-IsWellFormed = record {
  in_use = (omega arith, (omega arith, tt));
  distinct = ((λ m. elim m [ inl e ↦ omega arith | inr k ↦ k ]), ((λ m. m), tt));
}

next_eligible_finds_example :
    (((next_eligible (3 ∷ []) two).0 ≡ none) ↔ (any (in_rotation two) two.members ≡ false))
    × Picks (in_rotation two) two.members (next_eligible (3 ∷ []) two).0
next_eligible_finds_example = next_eligible_finds (3 ∷ []) two

Reach-IsWellFormed_example : IsWellFormed (add trusted two).1
Reach-IsWellFormed_example = Reach-IsWellFormed two-IsWellFormed (next here (added trusted refl))

removed_never_selected_example :
    (next_eligible (1 ∷ []) (add trusted (remove "node-a" two).1).1).0 ≢ some 0
unfolding remove two newcomer
removed_never_selected_example =
    removed_never_selected "node-a" two (add trusted (remove "node-a" two).1).1 0 (1 ∷ [])
      two-IsWellFormed refl (next here (added trusted refl))

picks_lap_example :
    picks (length (filter (in_rotation two) (lap_order two))) two
    ≡ filter (in_rotation two) (lap_order two)
unfolding two
picks_lap_example = picks_lap two (omega arith) (omega arith)

-- A body that the checks let through, and one that names a denied method.
abbrev braces : List ℕ
braces = b'{' ∷ b'}' ∷ []

-- A parser that knows the two bytes of an empty object.
abbrev reads_braces : List ℕ → Option Json
reads_braces (_ ∷ _ ∷ []) = some (object end)
reads_braces _ = none

contains-Occurs_example :
    (contains_ignore_case (b'x' ∷ b'E' ∷ b'T' ∷ []) (b'e' ∷ b't' ∷ []) ≡ true)
    ↔ Occurs (b'e' ∷ b't' ∷ []) (b'x' ∷ b'E' ∷ b'T' ∷ [])
contains-Occurs_example = contains-Occurs (b'x' ∷ b'E' ∷ b'T' ∷ []) (b'e' ∷ b't' ∷ []) (omega arith)

abbrev signing : List ℕ
signing = codes "{ETH_Sign}"

denied-Denies_example : Denies signing denied_names (denied signing)
denied-Denies_example = denied-Denies signing

attempt-Answers_example :
    (attempt reads_braces 8 (response 200 none (chunk braces done)) ≡ answer 200 braces)
    ↔ Answers reads_braces 8 200 none (chunk braces done) braces
attempt-Answers_example = attempt-Answers reads_braces 8 200 none (chunk braces done) braces

abbrev settings : Settings
settings = record {
  attempt_timeout = 5000;
  request_timeout = 9000;
  max_retries = 1;
  max_response_size = 8;
  flip_after = 2;
}

-- Every attempt is answered with a page that is no JSON, while a probe of the other member fails.
abbrev page : ℕ → Turn
page i = record {
  others = [];
  clock = 100 + i;
  attempt_started = 100 + i;
  send = λ _ _ _. response 200 none (chunk (b'<' ∷ []) done);
  meanwhile = (0, health_result false 2 probe) ∷ [];
  answered_at = 200 + i;
}

forward_admits_nobody_example :
    is_open health ((forward_with_failover reads_braces settings braces 50 page 300 two).2.entry 0)
    ≡ false
unfolding two newcomer is_open
forward_admits_nobody_example =
    forward_admits_nobody reads_braces settings page braces 50 300 two 0 (λ _. refl) (omega arith)
      refl

abbrev config : Config
config = record {
  flip_after = 3;
  probe_interval = 5000000000;
  max_probe_backoff = 60000000000;
  ref_height_interval = 5000000000;
  chainid_check_interval = 60000000000;
  chain_id = some 60138453033;
  lag_tolerance_blocks = 10;
}

abbrev lagging : Replies
lagging = record {
  chain_id = some 60138453033;
  block_number = some 80;
  took = 7000000;
  done_at = 9000000;
}

probe_delay_doubles_example : probe_delay config (3 + 2) ≡ min (5000000000 * 2 ^ 2) 60000000000
probe_delay_doubles_example = probe_delay_doubles config 2 (omega arith) (omega arith)

visit-Recorded_example :
    Recorded config
      (some 100)
      1000
      (some 80)
      (chain_cleared config true lagging newcomer).1
      (visit config 1000 (some 100) true lagging newcomer)
unfolding newcomer chain_cleared
visit-Recorded_example =
    visit-Recorded config 1000 (some 100) true lagging newcomer (omega arith) (omega arith) refl

-- Three visits of a provider on the right chain that keeps up bring it in.
abbrev keeping_up : Replies
keeping_up = record lagging { block_number = some 95 }

abbrev three_visits : List Deed
three_visits =
    visited 1000 (some 100) true keeping_up
    ∷ visited 2000 (some 100) false keeping_up
    ∷ visited 3000 (some 100) false keeping_up
    ∷ []

live-eligible-chain_verified_example :
    (live config three_visits (Defs.new "node-a" "http://10.0.0.1:8545/" static 0)).chain_verified
    ≡ true
unfolding live Defs.new eligible visit Defs.record_health record_height Defs.record_answered_probe
    record_probe_duration Defs.take_chain_check_due
live-eligible-chain_verified_example =
    live-eligible-chain_verified config 60138453033 three_visits "node-a" "http://10.0.0.1:8545/"
      static 0 refl refl

hex_quantity-value_example :
    hex_quantity (text "0x2a") ≡ within_u64 (value_from 0 (b'2' ∷ b'a' ∷ []))
hex_quantity-value_example = hex_quantity-value "0x2a" b'2' (b'a' ∷ []) refl (omega arith)

hex_quantity-plus_example :
    hex_quantity (text "0x+2a") ≡ within_u64 (value_from 0 (b'2' ∷ b'a' ∷ []))
hex_quantity-plus_example = hex_quantity-plus "0x+2a" b'2' (b'a' ∷ []) refl

-- A parser that reads any body as the answer to a probe.
abbrev reads_answer : List ℕ → Option Json
reads_answer _ = some (object (field "result" (text "0x2a") end))

query-Replied_example :
    (query reads_answer (response 200 none (chunk braces done)) ≡ some 42)
    ↔ Replied reads_answer 200 (chunk braces done) 42
query-Replied_example = query-Replied reads_answer 200 42 none (chunk braces done)
