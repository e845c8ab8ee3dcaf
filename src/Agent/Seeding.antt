-- ===== src/Agent/Seeding.antt =====
-- agent.rs `match_to_agreements`: a count that a record carries enters the provider's entry once.
use arkiv_community_lb.Base.{ℕ, ◌≡◌, refl, Option, none, some, List, [], ◌∷◌}
use arkiv_community_lb.Pool.Defs.{Pool}
use arkiv_community_lb.Chain.Records.{CounterRecord, Stored}
use arkiv_community_lb.Agent.Defs.{KnownAgreements, State}
use arkiv_community_lb.Agent.Counters.{
  CountersByAgreement, find_counter, take_counter, seeded_with, counter_of, match_each,
  match_to_agreements,
}

-- An entry whose agreement shows the record that is found is not seeded.
seeded_with-counter_of :
    (found : Option (Stored CounterRecord)) (h : ℕ) (pool : Pool)
    → seeded_with (counter_of found) found h pool ≡ pool
seeded_with-counter_of none h pool = refl
seeded_with-counter_of (some s) h pool = refl

match_each-again :
    (known : KnownAgreements) (records : CountersByAgreement) (pool later : Pool)
    → match_each (match_each known records pool).agreements records later
      ≡ record (match_each known records pool) { pool = later }
unfolding match_each
match_each-again [] records pool later = refl
match_each-again ((k, l) ∷ known) records pool later =
    let found = find_counter k records in
    let before = seeded_with l.counter found l.provider pool in
    let unseeded = seeded_with-counter_of found l.provider later in
    let rest = match_each-again known (take_counter k records) before later in
    rw (unseeded, rest) refl

-- Matching the same open records once more, whatever has happened to the pool since, changes nothing:
-- no entry is seeded a second time, the agreements in memory stay as they are, and the same records
-- are counted into, to be deleted as duplicates, and to be closed as strays.
pub match_to_agreements_twice :
    (oldest : CountersByAgreement) (duplicates : List ℕ) (s : State) (later : Pool)
    → let first = match_to_agreements oldest duplicates s in
      match_to_agreements oldest duplicates (record (first.1) { pool = later })
      ≡ (first.0, record (first.1) { pool = later })
unfolding match_to_agreements
match_to_agreements_twice oldest duplicates s later =
    rw (match_each-again s.agreements oldest s.pool later) refl
