-- ===== src/Chain/RoundTrip.antt =====
-- records.rs: what is written of a record reads back as that record.
use arkiv_community_lb.Base.Results.{ok}
use arkiv_community_lb.Base.{ℕ, ◌≡◌, refl, ◌∙◌, String, some, List, [], ◌∷◌, map}
use arkiv_community_lb.Jsonrpc.{Json}
use arkiv_community_lb.Integrity.Entities.{ArkivAttribute, ArkivEntity}
use arkiv_community_lb.Chain.Attributes.{
  AttributeValue, str, i32, u64, addr, key, bytes, Formats, from_read, to_read, wire_value,
  within_i32, Attributes, set, str_at, i32_at, addr_at, key_at,
}
use arkiv_community_lb.Chain.Records.{
  LbListing, OfferPayload, AgreementPayload, CounterPayload, ReceiptPayload, Offer, Agreement,
  CounterState, open_, closed, CounterRecord, Receipt, Serde, Codec, state_text, state_of, collect,
  typed_attributes, is_kind, payload_json, decode, Stored, decode_stored, encode_listing,
  encode_offer, encode_agreement, encode_counter, encode_receipt, decode_offer, decode_agreement,
  decode_counter, decode_receipt, listing_record, offer_record, agreement_record, counter_record,
  receipt_record,
}

-- What the libraries print, they parse back.
pub record AreFormats (f : Formats) : Type 0 where
  pub key_back : (k : ℕ) → f.parse_key (f.show_key k) ≡ some k
  pub addr_back : (a : ℕ) → f.parse_addr (f.show_addr a) ≡ some a
  pub bytes_back : (b : List ℕ) → f.parse_bytes (f.show_bytes b) ≡ some b

-- A payload is parsed back from what it is printed as.
abbrev pub Parses : {P : Type 0} → Serde P → P → Type 0
Parses s p = s.from_slice (s.to_vec p) ≡ some p

-- The payloads of the records.
abbrev pub offer_payload : Offer → OfferPayload
offer_payload o = record { specs = o.specs }

abbrev pub agreement_payload : Agreement → AgreementPayload
agreement_payload a = record { wei_per_call = a.wei_per_call; remote_port = a.remote_port }

abbrev pub counter_payload : CounterRecord → CounterPayload
counter_payload r = record {
  count = r.count;
  wei_per_call = r.wei_per_call;
  opened_block = r.opened_block;
  closed_block = r.closed_block;
}

abbrev pub receipt_payload : Receipt → ReceiptPayload
receipt_payload r = record {
  agreement = r.agreement;
  count = r.count;
  wei_per_call = r.wei_per_call;
  amount_wei = r.amount_wei;
  payout = r.payout;
}

-- The libraries parse what they print of one record of each kind.
pub record IsCodec (c : Codec) (l : LbListing) (o : Offer) (a : Agreement) (r : CounterRecord)
    (p : Receipt) : Type 0 where
  pub formats : AreFormats c.formats
  pub listing : Parses c.listing l
  pub offer : Parses c.offer (offer_payload o)
  pub agreement : Parses c.agreement (agreement_payload a)
  pub counter : Parses c.counter (counter_payload r)
  pub receipt : Parses c.receipt (receipt_payload p)

-- `Attributes::to_read`: the attributes as a query returns them.
abbrev pub readings : Formats → Attributes → List (ArkivAttribute Json)
readings f m = map (λ (a : String × AttributeValue). to_read f a.0 a.1) m

-- The values that a record has.
abbrev IsPlain : AttributeValue → Type 0
IsPlain (i32 n) = within_i32 n ≡ some n
IsPlain (u64 n) = ⊥
IsPlain _ = Unit

abbrev AllPlain : Attributes → Type 0
AllPlain [] = Unit
AllPlain ((n, v) ∷ m) = IsPlain v × AllPlain m

from_read-to_read :
    (f : Formats) (name : String) (v : AttributeValue)
    → AreFormats f
    → IsPlain v
    → from_read f (to_read f name v) ≡ some v
unfolding from_read to_read wire_value
from_read-to_read f name (str s) laws p = refl
from_read-to_read f name (i32 n) laws p = rw p refl
from_read-to_read f name (addr a) laws p = rw (laws.addr_back a) refl
from_read-to_read f name (key k) laws p = rw (laws.key_back k) refl
from_read-to_read f name (bytes b) laws p = rw (laws.bytes_back b) refl
from_read-to_read f name (u64 n) laws p = elim p [ ]

abbrev set_all : Attributes → Attributes → Attributes
set_all [] m = m
set_all ((n, v) ∷ rest) m = set_all rest (set n v m)

collect-readings :
    (f : Formats) (m acc : Attributes)
    → AreFormats f
    → AllPlain m
    → collect f (readings f m) acc ≡ set_all m acc
unfolding collect to_read
collect-readings f [] acc laws p = refl
collect-readings f ((n, v) ∷ m) acc laws p =
    rw (from_read-to_read f n v laws p.0, collect) (collect-readings f m (set n v acc) laws p.1)

state_of-state_text : (s : CounterState) → state_of (state_text s) ≡ ok s
unfolding state_of state_text
state_of-state_text open_ = refl
state_of-state_text closed = refl

module _ (c : Codec) (laws : AreFormats c.formats) (e : ArkivEntity Json) where
  typed-readings :
      (m : Attributes)
      → e.attributes ≡ readings c.formats m
      → AllPlain m
      → set_all m [] ≡ m
      → typed_attributes c.formats e ≡ m
  unfolding typed_attributes
  typed-readings m q p ordered = rw q (collect-readings c.formats m [] laws p ∙ ordered)

  listing_back :
      (l : LbListing)
      → Parses c.listing l
      → e.attributes ≡ readings c.formats (encode_listing c l)
      → decode c.formats (listing_record c) e ≡ ok l
  unfolding decode listing_record encode_listing payload_json is_kind i32_at
  listing_back l back q =
      let typed = typed-readings (encode_listing c l) q (tt, (tt, (refl, tt))) refl in
      rw (typed, payload_json, typed, back) refl

  offer_back :
      (o : Offer)
      → Parses c.offer (offer_payload o)
      → e.attributes ≡ readings c.formats (encode_offer c o)
      → decode c.formats (offer_record c) e ≡ ok o
  unfolding decode offer_record encode_offer decode_offer is_kind i32_at key_at payload_json
  offer_back o back q =
      let typed = typed-readings (encode_offer c o) q (tt, (tt, (tt, (refl, tt)))) refl in
      rw (typed, decode_offer, typed, back) refl

  counter_back :
      (r : CounterRecord)
      → Parses c.counter (counter_payload r)
      → e.attributes ≡ readings c.formats (encode_counter c r)
      → decode c.formats (counter_record c) e ≡ ok r
  unfolding decode counter_record encode_counter decode_counter is_kind i32_at str_at key_at addr_at
      payload_json
  counter_back r back q =
      let typed =
        typed-readings (encode_counter c r) q (tt, (tt, (tt, (tt, (tt, (refl, tt)))))) refl in
      rw (typed, decode_counter, typed, state_of-state_text r.state, back) refl

  agreement_back :
      (a : Agreement)
      → Parses c.agreement (agreement_payload a)
      → e.attributes ≡ readings c.formats (encode_agreement c a)
      → decode c.formats (agreement_record c) e ≡ ok a
  unfolding decode agreement_record encode_agreement decode_agreement is_kind i32_at key_at addr_at
      payload_json
  agreement_back a back q =
      let typed = typed-readings (encode_agreement c a) q (tt, (tt, (tt, (tt, (refl, tt))))) refl in
      rw (typed, decode_agreement, typed, back) refl

  receipt_back :
      (r : Receipt)
      → Parses c.receipt (receipt_payload r)
      → e.attributes ≡ readings c.formats (encode_receipt c r)
      → decode c.formats (receipt_record c) e ≡ ok r
  unfolding decode receipt_record encode_receipt decode_receipt is_kind i32_at key_at addr_at
      payload_json
  receipt_back r back q =
      let typed = typed-readings (encode_receipt c r) q (tt, (tt, (tt, (tt, (refl, tt))))) refl in
      rw (typed, decode_receipt, typed, back) refl

-- An entity as a query returns it, with these attributes.
abbrev pub holding : Formats → ArkivEntity Json → Attributes → ArkivEntity Json
holding f e m = record e { attributes = readings f m }

-- The record with what the chain says of its entity.
abbrev pub stored : {T : Type 0} → ArkivEntity Json → T → Stored T
stored e t = record {
  key = e.key;
  creator = e.creator;
  created_at = e.created_at;
  expires_at = e.expires_at;
  content = t;
}

-- Where the libraries parse what they print of these records, the attributes written for a listing, an offer, an
-- agreement, a counter or a receipt, read back from an entity, decode to that same record with the
-- entity's key, creator and blocks.
pub decode_stored-encode :
    (c : Codec) (e : ArkivEntity Json) (l : LbListing) (o : Offer) (a : Agreement)
    (r : CounterRecord) (p : Receipt)
    → IsCodec c l o a r p
    → decode_stored c.formats (listing_record c) (holding c.formats e (encode_listing c l))
        ≡ ok (stored e l)
      × decode_stored c.formats (offer_record c) (holding c.formats e (encode_offer c o))
        ≡ ok (stored e o)
      × decode_stored c.formats (agreement_record c) (holding c.formats e (encode_agreement c a))
        ≡ ok (stored e a)
      × decode_stored c.formats (counter_record c) (holding c.formats e (encode_counter c r))
        ≡ ok (stored e r)
      × decode_stored c.formats (receipt_record c) (holding c.formats e (encode_receipt c p))
        ≡ ok (stored e p)
unfolding decode_stored
decode_stored-encode c e l o a r p laws =
    let at = holding c.formats e in
    (
      rw (listing_back c laws.formats (at (encode_listing c l)) l laws.listing refl) refl,
      rw (offer_back c laws.formats (at (encode_offer c o)) o laws.offer refl) refl,
      rw (agreement_back c laws.formats (at (encode_agreement c a)) a laws.agreement refl) refl,
      rw (counter_back c laws.formats (at (encode_counter c r)) r laws.counter refl) refl,
      rw (receipt_back c laws.formats (at (encode_receipt c p)) p laws.receipt refl) refl,
    )
