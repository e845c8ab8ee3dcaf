-- ===== src/Stats.antt =====
-- crates/lb/src/stats.rs: the rings of hourly buckets. Hours are unix seconds.
pub mod Rings
pub mod Pairs
use arkiv_community_lb.Base.{
  ℕ, zero, suc, ◌+◌, ◌-◌, ◌*◌, ◌%◌, String, str_eq, Bool, true, false, Option, none, some, List, [],
  ◌∷◌, ◌++◌, length, filter, ltb, leb, ◌==◌, ◌||◌, if◌then◌else◌, u64_mod,
}
use arkiv_community_lb.Provider.Defs.{Provider, agreement_id as agreement_of}
use arkiv_community_lb.Pool.Defs.{Pool, LbOutcomes}
use arkiv_community_lb.Integrity.Entities.{name_le}

-- `HOURS` and `HOUR`
abbrev pub hours : ℕ
hours = 744

abbrev pub hour : ℕ
hour = 3600

pub record Bucket : Type 0 where
  pub start : ℕ
  pub count : ℕ
  pub partial : Bool

-- `buckets` with the latest hour at the head; the source's deque has it at the back.
pub record Ring : Type 0 where
  pub buckets : List Bucket
  pub last : Option ℕ

unfoldable pub empty : Ring
empty = record { buckets = []; last = none }

abbrev pub reading_or_zero : Option ℕ → ℕ
reading_or_zero none = 0
reading_or_zero (some n) = n

abbrev pub is_none : Option ℕ → Bool
is_none none = true
is_none (some _) = false

-- `pop_front`: the list without its last element, the oldest bucket.
abbrev pub drop_oldest : List Bucket → List Bucket
drop_oldest [] = []
drop_oldest (b ∷ []) = []
drop_oldest (b ∷ c ∷ bs) = b ∷ drop_oldest (c ∷ bs)

-- A new bucket, with room made for it.
unfoldable pub push_bucket : Bucket → List Bucket → List Bucket
push_bucket b bs = b ∷ (if length bs == hours then drop_oldest bs else bs)

-- The buckets after `count` more for the hour `start`; `+=` on u64 wraps.
unfoldable pub put : ℕ → ℕ → Bool → List Bucket → List Bucket
unfolding push_bucket
put start count partial [] =
    push_bucket (record { start = start; count = count; partial = partial }) []
put start count partial (newest ∷ bs) =
    if newest.start == start
    then record newest { count = (newest.count + count) % u64_mod; partial = true } ∷ bs
    else push_bucket (record { start = start; count = count; partial = partial }) (newest ∷ bs)

-- `Ring::close`
unfoldable pub close : ℕ → ℕ → Bool → Ring → Ring
unfolding put
close start reading stopping r = record {
  buckets = put start (reading - reading_or_zero r.last) (stopping || is_none r.last) r.buckets;
  last = some reading;
}

-- `Ring::tick` and `Ring::stop`
unfoldable pub tick : ℕ → ℕ → Ring → Ring
unfolding close
tick start reading = close start reading false

unfoldable pub stop : ℕ → ℕ → Ring → Ring
unfolding close
stop start reading = close start reading true

abbrev pub head_start : List Bucket → Option ℕ
head_start [] = none
head_start (b ∷ _) = some b.start

unfoldable pub newest : Ring → Option ℕ
newest r = head_start r.buckets

-- `Ring::since`, latest first.
unfoldable pub since : ℕ → Ring → List Bucket
since from r = filter (λ b. leb from b.start) r.buckets

-- The agreement is kept as its key; the file has it in hex.
pub record ProviderRings : Type 0 where
  pub agreement_id : Option ℕ
  pub served : Ring
  pub transport_failures : Ring

unfoldable pub no_rings : ProviderRings
unfolding empty
no_rings = record { agreement_id = none; served = empty; transport_failures = empty }

pub record LbRings : Type 0 where
  pub no_healthy_provider : Ring
  pub timed_out : Ring
  pub no_provider_answered : Ring

pub record Stats : Type 0 where
  pub providers : List (String × ProviderRings)
  pub lb : LbRings

-- `entry(id).or_default()` with a change of what it finds, in the map's order of the ids.
unfoldable pub change_rings :
    String
    → (ProviderRings → ProviderRings)
    → List (String × ProviderRings)
    → List (String × ProviderRings)
unfolding no_rings name_le
change_rings id f [] = (id, f no_rings) ∷ []
change_rings id f ((j, r) ∷ m) =
    let rest = change_rings id f m in
    if str_eq j id
    then (j, f r) ∷ m
    else if name_le id j
    then (id, f no_rings) ∷ (j, r) ∷ m
    else (j, r) ∷ rest

unfoldable pub close_rings : ℕ → Bool → Provider → ProviderRings → ProviderRings
unfolding close
close_rings start stopping p r = record {
  agreement_id = agreement_of p;
  served = close start p.served_total stopping r.served;
  transport_failures = close start p.transport_failures stopping r.transport_failures;
}

unfoldable pub close_providers :
    ℕ → Bool → List Provider → List (String × ProviderRings) → List (String × ProviderRings)
unfolding change_rings close_rings
close_providers start stopping [] m = m
close_providers start stopping (p ∷ ps) m =
    close_providers start stopping ps (change_rings p.id (close_rings start stopping p) m)

abbrev pub entries : (ℕ → Provider) → List ℕ → List Provider
entries entry [] = []
entries entry (h ∷ hs) = entry h ∷ entries entry hs

-- `Stats::close`
unfoldable pub close_all : ℕ → Pool → Bool → Stats → Stats
unfolding close close_providers
close_all start pool stopping s =
    let o = pool.lb_outcomes in
    record {
      providers = close_providers start stopping (entries pool.entry pool.members) s.providers;
      lb = record {
        no_healthy_provider = close start o.no_healthy_provider stopping s.lb.no_healthy_provider;
        timed_out = close start o.timed_out stopping s.lb.timed_out;
        no_provider_answered =
            close start o.no_provider_answered stopping s.lb.no_provider_answered;
      };
    }

abbrev pub is_recent : ℕ → Option ℕ → Bool
is_recent oldest_kept none = false
is_recent oldest_kept (some at) = leb oldest_kept at

-- `Stats::tick`
unfoldable pub tick_all : ℕ → Pool → Stats → Stats
unfolding close_all newest
tick_all start pool s =
    let t = close_all start pool false s in
    record t {
      providers =
          filter
            (λ (e : String × ProviderRings). is_recent (start - hours * hour) (newest e.1.served))
            t.providers;
    }

-- `Stats::stop`
unfoldable pub stop_all : ℕ → Pool → Stats → Stats
unfolding close_all
stop_all start pool = close_all start pool true
