-- ===== src/Agent/Defs.antt =====
-- agent.rs: the state of the agent, what it asks of the chain, and the records it writes.
use arkiv_community_lb.Base.Results.{Result, ok, err, ◌>>=◌}
use arkiv_community_lb.Base.{
  ℕ, suc, ◌+◌, ◌-◌, ◌/◌, String, Bool, ◌&&◌, ◌||◌, Option, none, some, List, [], ◌∷◌, map, length,
  leb, ltb, ◌==◌, if◌then◌else◌,
}
use arkiv_community_lb.Jsonrpc.{Json}
use arkiv_community_lb.Integrity.Entities.{ArkivEntity}
use arkiv_community_lb.Pool.Defs.{Pool}
use arkiv_community_lb.Config.{Marketplace, as_secs}
use arkiv_community_lb.Chain.Attributes.{keep, RecordError}
use arkiv_community_lb.Chain.Records.{
  Agreement, open_, closed, CounterRecord, Codec, Record, Stored, decode_stored, encode_counter,
}
use arkiv_community_lb.Chain.Reader.{Query, Page, ReadError}
use arkiv_community_lb.Chain.Writer.{
  Create, Patch, Extend, Batch, Created, Written, Extended, BatchResult, Identity, WriteError, Sent,
}
use arkiv_community_lb.Chain.Writer.Sending.{send}

-- `ChainReader` and `ChainWriter`, as far as the agent uses them.
pub record ChainReader : Type 0 where
  pub block_number : (moment : ℕ) → Result ReadError ℕ
  pub balance : (moment account : ℕ) → Result ReadError ℕ
  pub query : (moment : ℕ) → Query → Result ReadError Page
  pub count : (moment : ℕ) → Query → Result ReadError ℕ

pub record ChainWriter : Type 0 where
  pub identity : (moment : ℕ) → Result WriteError Identity
  pub create : (moment : ℕ) → Create → Result WriteError Created
  pub patch : (moment : ℕ) → Patch → Result WriteError Written
  pub extend : (moment : ℕ) → Extend → Result WriteError Extended
  pub execute_batch : (moment : ℕ) → Batch → Result WriteError BatchResult

pub record OpenCounter : Type 0 where
  pub key : ℕ
  pub opened_block : ℕ

-- `Live`; the provider is its entry's handle, and a task is there while it runs.
pub record Live : Type 0 where
  pub agreement : Stored Agreement
  pub provider : ℕ
  pub counter : Option OpenCounter
  pub admission_task : Bool

abbrev pub KnownAgreements : Type 0
KnownAgreements = List (ℕ × Live)

-- What the agent's tasks share.
pub record State : Type 0 where
  pub agreements : KnownAgreements
  pub pool : Pool

-- What an agent never changes, and how the texts of a provider's entry are written.
pub record Agent : Type 0 where
  pub reader : ChainReader
  pub writer : ChainWriter
  pub codec : Codec
  pub config : Marketplace
  pub identity : Identity
  pub listing_key : ℕ
  pub listing_expires_at : ℕ
  pub marketplace_id : ℕ → String
  pub loopback_url : ℕ → String

pub data Flush : Type 0 where
  scheduled stop : Flush

pub record Ended : Type 0 where
  pub agreement : Stored Agreement
  pub counter : OpenCounter
  pub served : ℕ

pub record Closing : Type 0 where
  pub agreement : ℕ
  pub counter : ℕ
  pub count : ℕ

pub record Landed : Type 0 where
  pub patched : List ℕ
  pub created : ℕ
  pub deleted : ℕ

pub data ReconcileError : Type 0 where
  chain : ReadError → ReconcileError
  too_many : (kind : String) (count : ℕ) → ReconcileError

-- The map of the agreements: a lookup, an insertion that replaces, and a change in place.
unfoldable pub lookup : ℕ → KnownAgreements → Option Live
lookup key [] = none
lookup key ((k, l) ∷ known) = if k == key then some l else lookup key known

unfoldable pub insert : ℕ → Live → KnownAgreements → KnownAgreements
insert key l [] = (key, l) ∷ []
insert key l ((k, m) ∷ known) =
    let rest = insert key l known in if k == key then (key, l) ∷ known else (k, m) ∷ rest

unfoldable pub alter : ℕ → (Live → Live) → KnownAgreements → KnownAgreements
alter key f [] = []
alter key f ((k, l) ∷ known) =
    let rest = alter key f known in if k == key then (k, f l) ∷ known else (k, l) ∷ rest

abbrev pub keys : KnownAgreements → List ℕ
keys known = map (λ (p : ℕ × Live). p.0) known

-- `blocks`
unfoldable pub blocks : ℕ → ℕ
blocks lifetime = as_secs lifetime / 2

unfoldable pub was_extended : Live → (agreement_life : ℕ) → Bool
unfolding blocks
was_extended l agreement_life =
    leb (blocks agreement_life) (l.agreement.expires_at - l.agreement.created_at)

-- `sort_by_key` of the creation block and the key, which keeps the order of equal ones.
module _ {T : Type 0} where
  unfoldable pub older : Stored T → Stored T → Bool
  older a b = ltb a.created_at b.created_at || (a.created_at == b.created_at && leb a.key b.key)

  unfoldable pub put : Stored T → List (Stored T) → List (Stored T)
  unfolding older
  put s [] = s ∷ []
  put s (t ∷ ts) = if older s t then s ∷ t ∷ ts else t ∷ put s ts

  unfoldable pub sort_by_creation : List (Stored T) → List (Stored T)
  unfolding put
  sort_by_creation [] = []
  sort_by_creation (s ∷ ts) = put s (sort_by_creation ts)

abbrev pub decoded : {T : Type 0} → Result RecordError T → List T → List T
decoded (ok t) ts = t ∷ ts
decoded (err _) ts = ts

-- The records of a page that decode, in its order.
unfoldable pub decode_all :
    {T : Type 0} → Codec → Record T → List (ArkivEntity Json) → List (Stored T)
unfolding decode_stored
decode_all c r [] = []
decode_all c r (e ∷ es) = decoded (decode_stored c.formats r e) (decode_all c r es)

abbrev pub from_chain : {T : Type 0} → Result ReadError T → Result ReconcileError T
from_chain (ok t) = ok t
from_chain (err e) = err (chain e)

-- Count then page, at two moments.
unfoldable pub read_all :
    {T : Type 0}
    → Agent
    → Record T
    → (kind : String) → Query
    → (moment : ℕ) → Result ReconcileError (List (Stored T))
unfolding decode_all
read_all a r kind q moment = from_chain (a.reader.count moment q) >>= λ count.
    if ltb 100 count
    then err (too_many kind count)
    else (from_chain (a.reader.query (suc moment) q) >>= λ page.
        ok (decode_all a.codec r page.entities))

-- `patch_record`
unfoldable pub patch_record : Codec → ℕ → CounterRecord → Patch
unfolding encode_counter keep
patch_record c key r = record {
  entity_key = key;
  set =
      keep (elim r.state [ open_ ↦ "payload" ∷ [] | closed ↦ "payload" ∷ "state" ∷ [] ])
        (encode_counter c r);
}

-- `counted` and `closed`
unfoldable pub with_count : Stored CounterRecord → ℕ → CounterRecord
with_count s count = record (s.content) { count = count }

unfoldable pub closed_with : CounterRecord → (count head : ℕ) → CounterRecord
closed_with r count head = record r { count = count; state = closed; closed_block = some head }

unfoldable pub open_counter : Stored CounterRecord → OpenCounter
open_counter s = record { key = s.key; opened_block = s.content.opened_block }

-- A record that opens a period of an agreement, at zero.
unfoldable pub opening : Agreement → (agreement head : ℕ) → CounterRecord
opening r agreement head = record {
  agreement = agreement;
  provider = r.provider;
  state = open_;
  count = 0;
  wei_per_call = r.wei_per_call;
  opened_block = head;
  closed_block = none;
}

abbrev pub or_nothing : Option (List Sent) → List Sent
or_nothing none = []
or_nothing (some sent) = sent

-- `send` of the agent's writer, with the fuel that is always enough.
unfoldable pub send_batch : Agent → (moment : ℕ) → Batch → List Sent
unfolding send
send_batch a moment batch =
    or_nothing (
      send (λ call. a.writer.execute_batch (moment + call)) (length batch + length batch - 1) batch)
