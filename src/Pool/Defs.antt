-- ===== src/Pool/Defs.antt =====
-- pool.rs: the membership, the cursor, and the counts of the requests that no provider answered.
use arkiv_community_lb.Base.{
  ℕ, zero, suc, ◌+◌, ◌%◌, String, str_eq, Bool, Option, none, some, List, [], ◌∷◌, ◌++◌, length,
  get_elem?, find, ◌==◌, if◌then◌else◌, u64_mod,
}
use arkiv_community_lb.Provider.Defs.{Provider, Source, static, marketplace, eligible}
use arkiv_community_lb.Provider.Defs

pub record LbOutcomes : Type 0 where
  pub no_healthy_provider : ℕ
  pub timed_out : ℕ
  pub no_provider_answered : ℕ

-- `entry` reads the table of entries by handle; the handles from `fresh` on are not in use.
pub record Pool : Type 0 where
  pub entry : ℕ → Provider
  pub fresh : ℕ
  pub members : List ℕ
  pub cursor : ℕ
  pub lb_outcomes : LbOutcomes

-- A write to one entry, as every holder of its handle sees it.
abbrev pub update : (ℕ → Provider) → ℕ → Provider → ℕ → Provider
update entry h p k = if k == h then p else entry k

unfoldable pub modify : ℕ → (Provider → Provider) → Pool → Pool
modify h f s = record s { entry = update s.entry h (f (s.entry h)) }

-- config.rs `Provider`
pub record Listed : Type 0 where
  pub id : String
  pub url : String

-- `InvalidUrl`, without the parser's own error.
pub record InvalidUrl : Type 0 where
  pub id : String
  pub url : String

pub data Result (A : Type 0) : Type 0 where
  ok : A → Result A
  err : InvalidUrl → Result A

-- `Url::parse` is the url crate's; a `Url` is the text it stands for.
module _ (parse_url : String → Option String) where
  unfoldable pub from_config : ℕ → Listed → Result Provider
  from_config now l = elim (parse_url l.url) [
    | none ↦ err (record { id = l.id; url = l.url })
    | some url ↦ ok (Defs.new l.id url static now)
  ]

-- `from_marketplace`: the id is the address in hex and the url the tunnel port on the loopback,
-- both as the libraries write them.
unfoldable pub from_marketplace :
    (marketplace_id loopback_url : ℕ → String) → ℕ → ℕ → ℕ → ℕ → Provider
from_marketplace marketplace_id loopback_url address agreement_id port now =
    Defs.new (marketplace_id address) (loopback_url port) (marketplace address agreement_id port)
      now

-- `Pool::add`
unfoldable pub add : Provider → Pool → ℕ × Pool
add p s = (
  s.fresh,
  record s {
    entry = update s.entry s.fresh p;
    fresh = suc s.fresh;
    members = s.members ++ s.fresh ∷ [];
  },
)

unfoldable pub no_members : (ℕ → Provider) → Pool
no_members entry = record {
  entry = entry;
  fresh = 0;
  members = [];
  cursor = 0;
  lb_outcomes = record { no_healthy_provider = 0; timed_out = 0; no_provider_answered = 0 };
}

module _ (parse_url : String → Option String) where
  unfoldable pub push_all : ℕ → List Listed → Pool → Result Pool
  unfolding from_config add
  push_all now [] s = ok s
  push_all now (l ∷ ls) s = elim (from_config parse_url now l) [
    | err e ↦ err e
    | ok p ↦ push_all now ls (add p s).1
  ]

  -- `Pool::new`; `unused` is what a table without entries holds.
  unfoldable pub new : (unused : ℕ → Provider) → ℕ → List Listed → Result Pool
  unfolding push_all no_members
  new unused now ls = push_all now ls (no_members unused)

abbrev pub has_id : String → Pool → ℕ → Bool
has_id id s h = str_eq (s.entry h).id id

-- `Pool::get`
unfoldable pub get : String → Pool → Option ℕ
get id s = find (has_id id s) s.members

-- The list without its first element that passes the test, and that element.
abbrev pub remove_first : (ℕ → Bool) → List ℕ → Option ℕ × List ℕ
remove_first p [] = (none, [])
remove_first p (h ∷ hs) =
    if p h then (some h, hs) else (let (r, rest) = remove_first p hs in (r, h ∷ rest))

-- `Pool::remove`
unfoldable pub remove : String → Pool → Option ℕ × Pool
remove id s =
    let (removed, rest) = remove_first (has_id id s) s.members in
    (removed, record s { members = rest })

abbrev pub in_rotation : Pool → ℕ → Bool
in_rotation s h = eligible (s.entry h)

-- The head of the list, and 0 for none.
abbrev pub next_of : List ℕ → ℕ
next_of [] = 0
next_of (j ∷ _) = j

abbrev pub rest_of : List ℕ → List ℕ
rest_of [] = []
rest_of (_ ∷ js) = js

-- The lap of `next_eligible` over a list of `len` members, `others` being what the selections of
-- other threads add to the cursor before each of its samples. The cursor is a usize of 64 bits.
-- An index below `len` finds a member; the `none` case is the panic that is never reached.
unfoldable pub lap : (ℕ → Bool) → List ℕ → ℕ → List ℕ → ℕ → Option ℕ × ℕ
lap el members zero others c = (none, c)
lap el members (suc n) others c =
    let at = (c + next_of others) % u64_mod in
    let rest = lap el members n (rest_of others) ((at + 1) % u64_mod) in
    elim (get_elem? members (at % length members)) [
      | none ↦ rest
      | some h ↦ if el h then (some h, (at + 1) % u64_mod) else rest
    ]

abbrev pub or_find : Option ℕ → Option ℕ → Option ℕ
or_find (some h) o = some h
or_find none o = o

-- `Pool::next_eligible`
unfoldable pub next_eligible : List ℕ → Pool → Option ℕ × Pool
unfolding lap eligible
next_eligible others s =
    if length s.members == 0
    then (none, s)
    else let (picked, c) = lap (in_rotation s) s.members (length s.members) others s.cursor in
      (or_find picked (find (in_rotation s) s.members), record s { cursor = c })

unfoldable pub record_no_healthy_provider : Pool → Pool
record_no_healthy_provider s =
    let o = s.lb_outcomes in
    record s {
      lb_outcomes = record o { no_healthy_provider = (o.no_healthy_provider + 1) % u64_mod };
    }

unfoldable pub record_timed_out : Pool → Pool
record_timed_out s =
    let o = s.lb_outcomes in
    record s { lb_outcomes = record o { timed_out = (o.timed_out + 1) % u64_mod } }

unfoldable pub record_no_provider_answered : Pool → Pool
record_no_provider_answered s =
    let o = s.lb_outcomes in
    record s {
      lb_outcomes = record o { no_provider_answered = (o.no_provider_answered + 1) % u64_mod };
    }
