-- ===== src/Chain/Records.antt =====
-- crates/lb/src/chain/records.rs: the five records, and how each turns into attributes and back out
-- of an entity. A payload's JSON is serde's, a parameter for each kind of payload.
use arkiv_community_lb.Base.Int.{ℤ, pos}
use arkiv_community_lb.Base.Results.{Result, ok, err, of_option, ◌>>=◌}
use arkiv_community_lb.Base.{
  ℕ, zero, suc, String, str_eq, Bool, false, Option, none, some, List, [], ◌∷◌, if◌then◌else◌,
}
use arkiv_community_lb.Jsonrpc.{Json}
use arkiv_community_lb.Integrity.Entities.{ArkivAttribute, ArkivEntity}
use arkiv_community_lb.Chain.Attributes.{
  AttributeValue, str, addr, key, bytes, RecordError, attribute_type, payload, not_this_record,
  version, Formats, from_read, Attributes, set, get, new, payload_of, str_at, i32_at, addr_at,
  key_at,
}

pub record LbListing : Type 0 where
  pub wei_per_call : ℕ
  pub tunnel_server : String
  pub max_providers : ℕ

pub record Hardware : Type 0 where
  pub cpus : ℕ
  pub mem_gb : ℕ

pub record Specs : Type 0 where
  pub chain_id : ℕ
  pub head : ℕ
  pub el : String
  pub cl : String
  pub hw : Hardware

pub record Offer : Type 0 where
  pub lb_listing : ℕ
  pub specs : Specs

pub record Agreement : Type 0 where
  pub provider : ℕ
  pub offer : ℕ
  pub wei_per_call : ℕ
  pub remote_port : ℕ

pub data CounterState : Type 0 where
  open_ closed : CounterState

pub record CounterRecord : Type 0 where
  pub agreement : ℕ
  pub provider : ℕ
  pub state : CounterState
  pub count : ℕ
  pub wei_per_call : ℕ
  pub opened_block : ℕ
  pub closed_block : Option ℕ

pub record Payout : Type 0 where
  pub chain_id : ℕ
  pub tx : String

pub record Receipt : Type 0 where
  pub counter : ℕ
  pub provider : ℕ
  pub agreement : ℕ
  pub count : ℕ
  pub wei_per_call : ℕ
  pub amount_wei : ℕ
  pub payout : Payout

-- The payloads; a listing is its own.
pub record OfferPayload : Type 0 where
  pub specs : Specs

pub record AgreementPayload : Type 0 where
  pub wei_per_call : ℕ
  pub remote_port : ℕ

pub record CounterPayload : Type 0 where
  pub count : ℕ
  pub wei_per_call : ℕ
  pub opened_block : ℕ
  pub closed_block : Option ℕ

pub record ReceiptPayload : Type 0 where
  pub agreement : ℕ
  pub count : ℕ
  pub wei_per_call : ℕ
  pub amount_wei : ℕ
  pub payout : Payout

-- `to_vec` and `from_slice` of a payload, and all of them.
pub record Serde (P : Type 0) : Type 0 where
  pub to_vec : P → List ℕ
  pub from_slice : List ℕ → Option P

pub record Codec : Type 0 where
  pub formats : Formats
  pub listing : Serde LbListing
  pub offer : Serde OfferPayload
  pub agreement : Serde AgreementPayload
  pub counter : Serde CounterPayload
  pub receipt : Serde ReceiptPayload

unfoldable pub state_text : CounterState → String
state_text open_ = "open"
state_text closed = "closed"

unfoldable pub state_of : String → Result RecordError CounterState
state_of s =
    if str_eq s "open"
    then ok open_
    else if str_eq s "closed"
    then ok closed
    else err (attribute_type "state" s "open or closed")

-- `encode` of a payload into the attributes
unfoldable pub with_payload : {P : Type 0} → Serde P → P → Attributes → Attributes
unfolding set
with_payload serde p m = set "payload" (bytes (serde.to_vec p)) m

unfoldable pub collect : Formats → List (ArkivAttribute Json) → Attributes → Attributes
unfolding from_read set
collect f [] m = m
collect f (a ∷ rest) m = elim (from_read f a) [
  | none ↦ collect f rest m
  | some v ↦ collect f rest (set a.name v m)
]

-- `ArkivEntity::typed_attributes`: the readable ones, the last one of a name.
unfoldable pub typed_attributes : Formats → ArkivEntity Json → Attributes
unfolding collect
typed_attributes f e = collect f e.attributes []

abbrev pub is_text : String → Option AttributeValue → Bool
is_text kind (some (str found)) = str_eq found kind
is_text kind _ = false

-- `ArkivEntity::is`
unfoldable pub is_kind : Formats → String → ArkivEntity Json → Bool
unfolding typed_attributes get
is_kind f kind e = is_text kind (get "kind" (typed_attributes f e))

-- `ArkivEntity::payload_json`; the text of an error is the library's, but for a missing payload.
unfoldable pub payload_json :
    {P : Type 0} → Formats → Serde P → ArkivEntity Json → Result RecordError P
unfolding typed_attributes payload_of
payload_json f serde e =
    of_option (payload "no payload attribute") (payload_of (typed_attributes f e)) >>= λ b.
    of_option (payload "not this record") (serde.from_slice b)

-- `Record`
pub record Record (T : Type 0) : Type 0 where
  pub kind : String
  pub encode : T → Attributes
  pub decode_fields : ArkivEntity Json → Result RecordError T

module _ {T : Type 0} (f : Formats) (r : Record T) where
  unfoldable pub at_version : ArkivEntity Json → ℤ → Result RecordError T
  at_version e (pos (suc zero)) = r.decode_fields e
  at_version e v = err (version v)

  -- `Record::decode`
  unfoldable pub decode : ArkivEntity Json → Result RecordError T
  unfolding is_kind i32_at at_version
  decode e =
      if is_kind f r.kind e
      then i32_at "v" (typed_attributes f e) >>= at_version e
      else err (not_this_record r.kind)

pub record Stored (T : Type 0) : Type 0 where
  pub key : ℕ
  pub creator : ℕ
  pub created_at : ℕ
  pub expires_at : ℕ
  pub content : T

-- `Stored::decode`
unfoldable pub decode_stored :
    {T : Type 0} → Formats → Record T → ArkivEntity Json → Result RecordError (Stored T)
unfolding decode
decode_stored f r e = decode f r e >>= λ t. ok (record {
  key = e.key;
  creator = e.creator;
  created_at = e.created_at;
  expires_at = e.expires_at;
  content = t;
})

module _ (c : Codec) where
  -- `encode` and `decode_fields` of each kind
  unfoldable pub encode_listing : LbListing → Attributes
  unfolding with_payload new
  encode_listing l = with_payload c.listing l (new "rpc.lb_listing")

  unfoldable pub encode_offer : Offer → Attributes
  unfolding with_payload new set
  encode_offer o =
      with_payload c.offer (record { specs = o.specs })
        (set "lb_listing" (key o.lb_listing) (new "rpc.offer"))

  unfoldable pub decode_offer : ArkivEntity Json → Result RecordError Offer
  unfolding payload_json key_at
  decode_offer e = do
    lb_listing ← key_at "lb_listing" (typed_attributes c.formats e)
    p ← payload_json c.formats c.offer e
    ok (record { lb_listing = lb_listing; specs = p.specs })

  unfoldable pub encode_agreement : Agreement → Attributes
  unfolding with_payload new set
  encode_agreement a =
      with_payload c.agreement
        (record { wei_per_call = a.wei_per_call; remote_port = a.remote_port })
        (set "offer" (key a.offer) (set "provider" (addr a.provider) (new "rpc.agreement")))

  unfoldable pub decode_agreement : ArkivEntity Json → Result RecordError Agreement
  unfolding payload_json key_at addr_at
  decode_agreement e = do
    let m = typed_attributes c.formats e
    p ← payload_json c.formats c.agreement e
    provider ← addr_at "provider" m
    offer ← key_at "offer" m
    ok (record {
      provider = provider;
      offer = offer;
      wei_per_call = p.wei_per_call;
      remote_port = p.remote_port;
    })

  unfoldable pub encode_counter : CounterRecord → Attributes
  unfolding with_payload new set state_text
  encode_counter r =
      with_payload c.counter
        (record {
          count = r.count;
          wei_per_call = r.wei_per_call;
          opened_block = r.opened_block;
          closed_block = r.closed_block;
        })
        (set "state" (str (state_text r.state)) (
          set "provider" (addr r.provider) (set "agreement" (key r.agreement) (new "rpc.counter"))))

  unfoldable pub decode_counter : ArkivEntity Json → Result RecordError CounterRecord
  unfolding payload_json key_at addr_at str_at state_of
  decode_counter e = do
    let m = typed_attributes c.formats e
    named ← str_at "state" m
    state ← state_of named
    p ← payload_json c.formats c.counter e
    agreement ← key_at "agreement" m
    provider ← addr_at "provider" m
    ok (record {
      agreement = agreement;
      provider = provider;
      state = state;
      count = p.count;
      wei_per_call = p.wei_per_call;
      opened_block = p.opened_block;
      closed_block = p.closed_block;
    })

  unfoldable pub encode_receipt : Receipt → Attributes
  unfolding with_payload new set
  encode_receipt r =
      with_payload c.receipt
        (record {
          agreement = r.agreement;
          count = r.count;
          wei_per_call = r.wei_per_call;
          amount_wei = r.amount_wei;
          payout = r.payout;
        })
        (set "provider" (addr r.provider) (set "counter" (key r.counter) (new "rpc.receipt")))

  unfoldable pub decode_receipt : ArkivEntity Json → Result RecordError Receipt
  unfolding payload_json key_at addr_at
  decode_receipt e = do
    let m = typed_attributes c.formats e
    p ← payload_json c.formats c.receipt e
    counter ← key_at "counter" m
    provider ← addr_at "provider" m
    ok (record {
      counter = counter;
      provider = provider;
      agreement = p.agreement;
      count = p.count;
      wei_per_call = p.wei_per_call;
      amount_wei = p.amount_wei;
      payout = p.payout;
    })

  unfoldable pub listing_record : Record LbListing
  unfolding encode_listing payload_json
  listing_record = record {
    kind = "rpc.lb_listing";
    encode = encode_listing;
    decode_fields = payload_json c.formats c.listing;
  }

  unfoldable pub offer_record : Record Offer
  unfolding encode_offer decode_offer
  offer_record = record { kind = "rpc.offer"; encode = encode_offer; decode_fields = decode_offer }

  unfoldable pub agreement_record : Record Agreement
  unfolding encode_agreement decode_agreement
  agreement_record = record {
    kind = "rpc.agreement";
    encode = encode_agreement;
    decode_fields = decode_agreement;
  }

  unfoldable pub counter_record : Record CounterRecord
  unfolding encode_counter decode_counter
  counter_record = record {
    kind = "rpc.counter";
    encode = encode_counter;
    decode_fields = decode_counter;
  }

  unfoldable pub receipt_record : Record Receipt
  unfolding encode_receipt decode_receipt
  receipt_record = record {
    kind = "rpc.receipt";
    encode = encode_receipt;
    decode_fields = decode_receipt;
  }
