-- ===== src/Agent/Counters.antt =====
-- agent.rs `reconcile_counters`: the open counter records on the chain, and the agreements in memory
-- that count into them. A map from agreement keys to records is a list of pairs, in any order.
use arkiv_community_lb.Base.Results.{Result, ok, err, ◌>>=◌}
use arkiv_community_lb.Base.{
  ℕ, suc, ◌+◌, Option, none, some, List, [], ◌∷◌, ◌++◌, map, ◌==◌, if◌then◌else◌,
}
use arkiv_community_lb.Jsonrpc.{Json}
use arkiv_community_lb.Integrity.Entities.{ArkivEntity}
use arkiv_community_lb.Provider.Defs.{subtract_served, seed_served}
use arkiv_community_lb.Pool.Defs.{Pool, modify}
use arkiv_community_lb.Chain.Attributes.{str, RecordError}
use arkiv_community_lb.Chain.Records.{
  open_, closed, CounterRecord, Stored, decode_stored, counter_record,
}
use arkiv_community_lb.Chain.Reader.{
  Query, creator, attribute, by_key, expires_after, of_kind, narrowed,
}
use arkiv_community_lb.Agent.Defs.{
  OpenCounter, Live, KnownAgreements, State, Agent, ReconcileError, lookup, alter, sort_by_creation,
  from_chain, read_all, open_counter,
}

abbrev pub CountersByAgreement : Type 0
CountersByAgreement = List (ℕ × Stored CounterRecord)

pub record Counters : Type 0 where
  pub open_records : CountersByAgreement
  pub duplicates : List ℕ
  pub strays : List (Stored CounterRecord)

unfoldable pub find_counter : ℕ → CountersByAgreement → Option (Stored CounterRecord)
find_counter key [] = none
find_counter key ((k, c) ∷ rest) = if k == key then some c else find_counter key rest

unfoldable pub take_counter : ℕ → CountersByAgreement → CountersByAgreement
take_counter key [] = []
take_counter key ((k, c) ∷ rest) =
    let left = take_counter key rest in if k == key then rest else (k, c) ∷ left

-- The loop of `oldest_per_agreement`, over the records from the oldest on.
unfoldable pub first_of_each :
    List (Stored CounterRecord) → CountersByAgreement → CountersByAgreement × List ℕ
unfolding find_counter
first_of_each [] oldest = (oldest, [])
first_of_each (s ∷ ss) oldest = elim (find_counter s.content.agreement oldest) [
  | none ↦ first_of_each ss (oldest ++ (s.content.agreement, s) ∷ [])
  | some _ ↦ let r = first_of_each ss oldest in (r.0, s.key ∷ r.1)
]

unfoldable pub oldest_per_agreement : List (Stored CounterRecord) → CountersByAgreement × List ℕ
unfolding sort_by_creation first_of_each
oldest_per_agreement records = first_of_each (sort_by_creation records) []

abbrev pub key_of : Option OpenCounter → Option ℕ
key_of none = none
key_of (some c) = some c.key

abbrev pub with_missing :
    ℕ → Option (Stored CounterRecord) → Option OpenCounter → List (ℕ × ℕ) → List (ℕ × ℕ)
with_missing k none (some c) rest = (k, c.key) ∷ rest
with_missing k _ _ rest = rest

-- The agreements whose record is not among the open ones, each with that record's key.
unfoldable pub missing : CountersByAgreement → KnownAgreements → List (ℕ × ℕ)
unfolding find_counter
missing open_records [] = []
missing open_records ((k, l) ∷ known) =
    with_missing k (find_counter k open_records) l.counter (missing open_records known)

abbrev pub if_closed : Result RecordError (Stored CounterRecord) → Option ℕ
if_closed (err _) = none
if_closed (ok s) = elim s.content.state [ open_ ↦ none | closed ↦ some s.content.count ]

abbrev pub with_closed : ℕ → Option ℕ → List (ℕ × ℕ) → List (ℕ × ℕ)
with_closed k none rest = rest
with_closed k (some n) rest = (k, n) ∷ rest

-- What memory holds of an agreement whose period was written, and its entry without that count.
unfoldable pub forget : (agreement count : ℕ) → State → State
unfolding lookup alter modify subtract_served
forget agreement count s = elim (lookup agreement s.agreements) [
  | none ↦ s
  | some l ↦ record {
    agreements = alter agreement (λ (l : Live). record l { counter = none }) s.agreements;
    pool = modify l.provider (subtract_served count) s.pool;
  }
]

unfoldable pub forget_all : List (ℕ × ℕ) → State → State
unfolding forget
forget_all [] s = s
forget_all ((k, n) ∷ closed_ones) s = forget_all closed_ones (forget k n s)

-- The entry of an agreement with the record it counts into: seeded when memory held none.
abbrev pub seeded_with : Option OpenCounter → Option (Stored CounterRecord) → ℕ → Pool → Pool
seeded_with none (some s) h pool = modify h (seed_served s.content.count) pool
seeded_with _ _ h pool = pool

abbrev pub counter_of : Option (Stored CounterRecord) → Option OpenCounter
counter_of none = none
counter_of (some s) = some (open_counter s)

abbrev pub with_open : ℕ → Option (Stored CounterRecord) → CountersByAgreement → CountersByAgreement
with_open k none rest = rest
with_open k (some s) rest = (k, s) ∷ rest

pub record Matched : Type 0 where
  pub agreements : KnownAgreements
  pub pool : Pool
  pub open_records : CountersByAgreement
  pub left : CountersByAgreement

-- The loop of `match_to_agreements`.
unfoldable pub match_each : KnownAgreements → CountersByAgreement → Pool → Matched
unfolding find_counter take_counter seed_served open_counter
match_each [] records pool = record {
  agreements = [];
  pool = pool;
  open_records = [];
  left = records;
}
match_each ((k, l) ∷ known) records pool =
    let found = find_counter k records in
    let r =
      match_each known (take_counter k records) (seeded_with l.counter found l.provider pool) in
    record r {
      agreements = (k, record l { counter = counter_of found }) ∷ r.agreements;
      open_records = with_open k found r.open_records;
    }

-- `match_to_agreements`, and what `reconcile_counters` makes of it.
unfoldable pub match_to_agreements : CountersByAgreement → List ℕ → State → Counters × State
unfolding match_each
match_to_agreements oldest duplicates s =
    let r = match_each s.agreements oldest s.pool in
    (
      record {
        open_records = r.open_records;
        duplicates = duplicates;
        strays = map (λ (p : ℕ × Stored CounterRecord). p.1) r.left;
      },
      record { agreements = r.agreements; pool = r.pool },
    )

module _ (a : Agent) where
  unfoldable pub counter_query : (head : ℕ) → Query
  unfolding narrowed of_kind
  counter_query head = narrowed (expires_after head) (
      narrowed (attribute "state" (str "open"))
        (narrowed (creator a.identity.address) (of_kind "rpc.counter")))

  unfoldable pub read_open_counters :
      (head moment : ℕ) → Result ReconcileError (List (Stored CounterRecord))
  unfolding counter_query read_all
  read_open_counters head moment =
      read_all a (counter_record a.codec) "open counter" (counter_query head) moment

  abbrev pub first_closed : List (ArkivEntity Json) → Option ℕ
  first_closed [] = none
  first_closed (e ∷ _) = if_closed (decode_stored a.codec.formats (counter_record a.codec) e)

  unfoldable pub closed_count : (moment counter : ℕ) → Result ReconcileError (Option ℕ)
  unfolding narrowed of_kind
  closed_count moment counter =
      from_chain (
        a.reader.query moment (
          narrowed (by_key counter)
            (narrowed (creator a.identity.address) (of_kind "rpc.counter"))))
      >>= λ page. ok (first_closed page.entities)

  -- The counts that the missing records were closed with, read before memory changes.
  unfoldable pub closed_counts : (moment : ℕ) → List (ℕ × ℕ) → Result ReconcileError (List (ℕ × ℕ))
  unfolding closed_count
  closed_counts moment [] = ok []
  closed_counts moment ((k, c) ∷ rest) = closed_count moment c >>= λ n.
      closed_counts (suc moment) rest >>= λ counts. ok (with_closed k n counts)

  unfoldable pub forget_closed_counters :
      (moment : ℕ) → CountersByAgreement → State → Result ReconcileError State
  unfolding closed_counts missing forget_all
  forget_closed_counters moment open_records s =
      closed_counts moment (missing open_records s.agreements) >>= λ counts.
      ok (forget_all counts s)

  unfoldable pub reconcile_counters :
      (head moment : ℕ) → State → Result ReconcileError (Counters × State)
  unfolding read_open_counters oldest_per_agreement forget_closed_counters match_to_agreements
  reconcile_counters head moment s = read_open_counters head moment >>= λ records.
      let r = oldest_per_agreement records in
      forget_closed_counters (moment + 2) r.0 s >>= λ t. ok (match_to_agreements r.0 r.1 t)
