-- ===== src/Tests/Agent.antt =====
-- The theorems on the marketplace agent at concrete inputs.
use arkiv_community_lb.Base.Results.{ok, err}
use arkiv_community_lb.Base.{
  none, ℕ, ◌+◌, ◌*◌, ◌≤◌, ◌<◌, ◌≡◌, refl, max, ◌⊎◌, false, some, List, [], ◌∷◌, length, All, arith,
  ◌==◌,
}
use arkiv_community_lb.Jsonrpc.{Json, null}
use arkiv_community_lb.Admission.{new_proxy, Crypto}
use arkiv_community_lb.Agent.Admitting.{
  Metas, Contents, IsLetIn, asked, admission_route, admission_route-IsLetIn,
}
use arkiv_community_lb.Integrity.Entities.{ArkivEntity}
use arkiv_community_lb.Provider.Defs.{Provider, marketplace, record_served}
use arkiv_community_lb.Provider.Defs
use arkiv_community_lb.Pool.Defs.{Pool, add, no_members, modify}
use arkiv_community_lb.Pool.Members.{Distinct}
use arkiv_community_lb.Config.{Marketplace, second}
use arkiv_community_lb.Chain.Attributes.{to_read}
use arkiv_community_lb.Chain.Records.{
  agreement_record, counter_record, Agreement, Stored, encode_agreement, encode_counter,
}
use arkiv_community_lb.Chain.RoundTrip.{holding, stored}
use arkiv_community_lb.Chain.Writer.{Sent, transport}
use arkiv_community_lb.Agent.Defs.{ChainReader, ChainWriter, Live, State, Agent, scheduled, blocks}
use arkiv_community_lb.Agent.Reconcile.{
  read_agreements, match_chain, close_ended, reconcile_agreements,
}
use arkiv_community_lb.Agent.Adoption.{IsConsistent}
use arkiv_community_lb.Agent.Matching.{IsMatched, reconcile_agreements_lem}
use arkiv_community_lb.Agent.Discovery.{accept_offers, ports_of}
use arkiv_community_lb.Agent.Slots.{HasOrigin, accept_offers_lem}
use arkiv_community_lb.Agent.Counters.{Counters, match_to_agreements}
use arkiv_community_lb.Agent.Flushing.{Flushed, flush_from, flush_with}
use arkiv_community_lb.Agent.Handles.{served_at}
use arkiv_community_lb.Agent.Seeding.{match_to_agreements_twice}
use arkiv_community_lb.Agent.Closings.{IsSent}
use arkiv_community_lb.Agent.Billing.{billed, flush_with-billed}
use arkiv_community_lb.Agent.Refresh.{refresh_batch, extend_for}
use arkiv_community_lb.Agent.Renewal.{IsRenewal, refresh_batch_lem}
use arkiv_community_lb.Tests.Market.{formats, codec, offer, agreement, counter, entity}

abbrev config : Marketplace
config = record {
  writer_url = "http://127.0.0.1:8560/";
  wei_per_call = 100;
  tunnel_server = "203.0.113.10:7000";
  max_providers = 2;
  remote_port_start = 20000;
  discovery_interval = 300 * second;
  refresh_interval = 3600 * second;
  agreement_life = 7200 * second;
  listing_life = 7200 * second;
  counter_record_life = 7200 * second;
  offer_max_lifetime = 1800 * second;
  settlement_period = 20 * second;
  flush_interval = 600 * second;
  gas_warn_below = 0;
}

-- A chain with the head 700 that answers every query with this row and lands every write.
abbrev reader_of : ArkivEntity Json → ChainReader
reader_of row = record {
  block_number = λ _. ok 700;
  balance = λ _ _. ok 0;
  query = λ _ _. ok (record { entities = row ∷ []; more = false; block = 700 });
  count = λ _ _. ok 1;
}

abbrev writer : ChainWriter
writer = record {
  identity = λ _. ok (record { address = 1; chain_id = 5 });
  create = λ moment _. ok (record { entity_key = 40 + moment; tx_hash = "0x2"; expires_at = 1600 });
  patch = λ _ _. err transport;
  extend = λ _ _. err transport;
  execute_batch = λ _ _. ok (record {
    tx_hash = "0x1";
    created_entities = [];
    patched_entities = 12 ∷ [];
    deleted_entities = [];
    extended_entities = [];
  });
}

abbrev agent_of : ArkivEntity Json → Agent
agent_of row = record {
  reader = reader_of row;
  writer = writer;
  codec = codec;
  config = config;
  identity = record { address = 1; chain_id = 5 };
  listing_key = 4;
  listing_expires_at = 2000;
  marketplace_id = λ _. "0x07";
  loopback_url = λ _. "http://127.0.0.1:20000/";
}

-- An agreement in memory, and its provider's entry, in rotation, which has served six requests.
abbrev entry : Provider
unfolding Defs.new
entry = record (Defs.new "0x07" "http://127.0.0.1:20000/" (marketplace 7 11 20000) 0) {
  eligibility = 3;
  served = 6;
}

abbrev pool : Pool
unfolding add no_members
pool = (add entry (no_members (λ _. entry))).1

abbrev live : Live
live = record {
  agreement = stored (entity 11 500 900) agreement;
  provider = 0;
  counter = some (record { key = 12; opened_block = 10 });
  admission_task = false;
}

abbrev memory : State
memory = record { agreements = (11, live) ∷ []; pool = pool }

memory-IsConsistent : IsConsistent memory.agreements
memory-IsConsistent = record {
  keyed = (refl, tt);
  distinct_keys = ((λ m. m), tt);
  distinct_providers = ((λ m. m), tt);
}

-- The row of another agreement: the one in memory has ended.
abbrev other_row : ArkivEntity Json
other_row = holding formats (entity 15 600 990) (encode_agreement codec agreement)

abbrev on_chain : List (Stored Agreement)
on_chain = stored (entity 15 600 990) agreement ∷ []

abbrev reconciled : ℕ × State × List Sent
reconciled =
    let a = agent_of other_row in
    let r = match_chain a 0 on_chain memory in (700, r.1, close_ended a 700 3 r.0)

reconcile_agreements_lem_example :
    (l : List (Stored Agreement)) × (read_agreements (agent_of other_row) 700 1 ≡ ok l)
    × IsMatched l reconciled.1.agreements
unfolding reconcile_agreements encode_agreement to_read agreement_record
reconcile_agreements_lem_example =
    reconcile_agreements_lem (agent_of other_row) 0 0 memory reconciled memory-IsConsistent refl

-- A provider's offer, while something is bound to the second port.
accept_offers_lem_example :
    let a = agent_of other_row in
    let bound = λ (moment port : ℕ). port == 20001 in
    let known =
      (accept_offers a 0 700 bound 0 (stored (entity 3 650 800) offer ∷ []) memory).agreements in
    IsConsistent known
    × Distinct (ports_of known)
    × (length known ≤ max 1 2)
    × All (HasOrigin a bound memory.agreements) (ports_of known)
accept_offers_lem_example =
    accept_offers_lem (agent_of other_row) 0 700 (λ moment port. port == 20001) 0
      (stored (entity 3 650 800) offer ∷ []) memory memory-IsConsistent ((λ m. m), tt)

-- The counter record of the agreement, whose period is over; a request is served during the close.
abbrev counter_row : ArkivEntity Json
counter_row = holding formats (entity 12 500 900) (encode_counter codec counter)

abbrev one_more : State → State
unfolding modify record_served
one_more s = record s { pool = modify 0 (record_served 5) s.pool }

abbrev matched : Counters × State
matched = match_to_agreements ((11, stored (entity 12 500 900) counter) ∷ []) [] memory

abbrev flushed : Flushed (agent_of counter_row)
flushed = flush_from (agent_of counter_row) matched.0 700 scheduled 4 one_more matched.1

flush_with-billed_example :
    (served_at flushed.after 0 + billed flushed.landed 11 flushed.closing
      ≡ served_at (one_more flushed.reconciled) 0)
    × (billed flushed.landed 11 flushed.closing ≤ served_at flushed.reconciled 0)
    × IsSent (agent_of counter_row) 0 memory flushed
unfolding flush_with to_read counter_record encode_counter one_more pool entry
flush_with-billed_example =
    flush_with-billed (agent_of counter_row) scheduled 0 one_more memory flushed 11 live live refl
      ((λ m. m), tt) refl ((λ m. m), tt) refl refl (omega arith)

refresh_batch_lem_example :
    let a = agent_of other_row in
    let r = refresh_batch a (some 700) memory in
    All
      (λ op.
        ((op ≡ extend_for 4 (7200 * second)) × (2000 < 701 + blocks (7200 * second)))
        ⊎ IsRenewal pool 700 701 (7200 * second) memory.agreements op)
      r.batch
    × (r.ineligible + r.expiring_later + length r.batch ≤ 2)
refresh_batch_lem_example = refresh_batch_lem (agent_of other_row) 700 701 memory (omega arith)

-- The record is new to memory, and requests are served between two reads.
abbrev unopened : State
unopened = record { agreements = (11, record live { counter = none }) ∷ []; pool = pool }

abbrev once : Counters × State
once = match_to_agreements ((11, stored (entity 12 500 900) counter) ∷ []) (13 ∷ []) unopened

match_to_agreements_twice_example :
    match_to_agreements
      ((11, stored (entity 12 500 900) counter) ∷ [])
      (13 ∷ [])
      (record (once.1) { pool = (one_more once.1).pool })
    ≡ (once.0, record (once.1) { pool = (one_more once.1).pool })
match_to_agreements_twice_example =
    match_to_agreements_twice ((11, stored (entity 12 500 900) counter) ∷ []) (13 ∷ []) unopened
      (one_more once.1).pool

-- The provider of the agreement that the reconcile found registers its proxy.
abbrev door : Crypto
door = record {
  Signature = ℕ;
  parse_key = λ _. some 15;
  parse_signature = λ _. some 7;
  recover = λ signature _. some signature;
  decimal = λ _. "20000";
  hex = λ _. "0x0f";
}

abbrev metas : Metas
metas = record { agreement = some "0x0f"; token = some "0x07" }

abbrev contents : Contents
contents = record {
  login_content = λ _. none;
  new_proxy_content = λ _. some (record {
    user = record { metas = metas };
    proxy_name = "node-rpc-20000";
    remote_port = 20000;
  });
}

admission_route-IsLetIn_example :
    (l : List (Stored Agreement)) × (read_agreements (agent_of other_row) 700 1 ≡ ok l)
    × IsLetIn door (new_proxy 20000 "node-rpc-20000") metas reconciled.1.agreements l
unfolding reconcile_agreements encode_agreement to_read agreement_record admission_route asked
admission_route-IsLetIn_example =
    admission_route-IsLetIn (agent_of other_row) 0 0 memory reconciled 50 door contents
      (record { op = "NewProxy"; content = null }) (new_proxy 20000 "node-rpc-20000") metas
      memory-IsConsistent refl refl refl
