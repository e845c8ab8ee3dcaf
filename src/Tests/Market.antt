-- ===== src/Tests/Market.antt =====
-- Data for the tests on the records of the chain and on the agent: libraries that print a number as a
-- row of one letter, and a chain with one agreement, one counter and one offer.
use Prim.Native.Char.{Char, char, code}
use arkiv_community_lb.Base.{
  ℕ, zero, suc, ◌+◌, ◌≡◌, refl, ap, ◌∙◌, String, none, some, List, [], ◌∷◌, arith, ◌==◌,
  if◌then◌else◌,
}
use arkiv_community_lb.Jsonrpc.{Json}
use arkiv_community_lb.Integrity.Entities.{ArkivEntity}
use arkiv_community_lb.Chain.Attributes.{Formats}
use arkiv_community_lb.Chain.Records.{
  LbListing, Offer, Agreement, open_, CounterRecord, Receipt, Serde, Codec,
}
use arkiv_community_lb.Chain.RoundTrip.{
  AreFormats, IsCodec, offer_payload, agreement_payload, counter_payload, receipt_payload,
}

abbrev letter : Char
letter = char 97 tt

abbrev comma : Char
comma = char 44 tt

abbrev pub row : ℕ → String
row zero = String.[]
row (suc n) = String.◌∷◌ letter (row n)

abbrev pub measure : String → ℕ
measure String.[] = zero
measure (String.◌∷◌ _ s) = suc (measure s)

measure-row : (n : ℕ) → measure (row n) ≡ n
measure-row zero = refl
measure-row (suc n) = ap suc (measure-row n)

abbrev before_comma : ℕ → String → String
before_comma zero rest = String.◌∷◌ comma rest
before_comma (suc n) rest = String.◌∷◌ letter (before_comma n rest)

abbrev rows : List ℕ → String
rows [] = String.[]
rows (n ∷ ns) = before_comma n (rows ns)

abbrev read_rows : String → ℕ → List ℕ
read_rows String.[] n = []
read_rows (String.◌∷◌ c s) n =
    let more = read_rows s (suc n) in
    let rest = read_rows s zero in if code c == 97 then more else n ∷ rest

read_rows-before_comma :
    (n m : ℕ) (rest : String) → read_rows (before_comma n rest) m ≡ (n + m) ∷ read_rows rest zero
read_rows-before_comma zero m rest = ap (λ k. k ∷ read_rows rest zero) (omega arith)
read_rows-before_comma (suc n) m rest =
    read_rows-before_comma n (suc m) rest ∙ ap (λ k. k ∷ read_rows rest zero) (omega arith)

read_rows-rows : (ns : List ℕ) → read_rows (rows ns) zero ≡ ns
read_rows-rows [] = refl
read_rows-rows (n ∷ ns) =
    read_rows-before_comma n zero (rows ns)
    ∙ ap (λ k. k ∷ read_rows (rows ns) zero) (omega arith)
    ∙ ap (λ l. n ∷ l) (read_rows-rows ns)

abbrev pub formats : Formats
formats = record {
  show_key = row;
  parse_key = λ s. some (measure s);
  show_addr = row;
  parse_addr = λ s. some (measure s);
  show_bytes = rows;
  parse_bytes = λ s. some (read_rows s zero);
  show_u64 = row;
  parse_decimal = λ s. some (measure s);
}

pub formats-AreFormats : AreFormats formats
formats-AreFormats = record {
  key_back = λ k. ap some (measure-row k);
  addr_back = λ a. ap some (measure-row a);
  bytes_back = λ b. ap some (read_rows-rows b);
}

abbrev pub listing : LbListing
listing = record { wei_per_call = 100; tunnel_server = "203.0.113.10:7000"; max_providers = 2 }

abbrev pub offer : Offer
offer = record {
  lb_listing = 4;
  specs = record {
    chain_id = 5;
    head = 700;
    el = "geth";
    cl = "lighthouse";
    hw = record { cpus = 8; mem_gb = 32 };
  };
}

abbrev pub agreement : Agreement
agreement = record { provider = 7; offer = 3; wei_per_call = 100; remote_port = 20000 }

abbrev pub counter : CounterRecord
counter = record {
  agreement = 11;
  provider = 7;
  state = open_;
  count = 6;
  wei_per_call = 100;
  opened_block = 10;
  closed_block = none;
}

abbrev pub receipt : Receipt
receipt = record {
  counter = 12;
  provider = 7;
  agreement = 11;
  count = 6;
  wei_per_call = 100;
  amount_wei = 600;
  payout = record { chain_id = 5; tx = "0xabc" };
}

-- A library that prints this payload and parses it back.
abbrev serde : {P : Type 0} → P → Serde P
serde p = record { to_vec = λ _. 1 ∷ []; from_slice = λ _. some p }

abbrev pub codec : Codec
codec = record {
  formats = formats;
  listing = serde listing;
  offer = serde (offer_payload offer);
  agreement = serde (agreement_payload agreement);
  counter = serde (counter_payload counter);
  receipt = serde (receipt_payload receipt);
}

pub codec-IsCodec : IsCodec codec listing offer agreement counter receipt
codec-IsCodec = record {
  formats = formats-AreFormats;
  listing = refl;
  offer = refl;
  agreement = refl;
  counter = refl;
  receipt = refl;
}

abbrev pub entity : (key created_at expires_at : ℕ) → ArkivEntity Json
entity key created_at expires_at = record {
  key = key;
  creator = 1;
  created_at = created_at;
  updated_at = created_at;
  expires_at = expires_at;
  attributes = [];
}
