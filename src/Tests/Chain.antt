-- ===== src/Tests/Chain.antt =====
-- The theorems on the records of the chain, on the writer and on the configuration at concrete inputs.
use Prim.Native.String.{◌++◌ as concat}
use Prim.Native.Char.{Char, char}
use arkiv_community_lb.Base.Results.{ok, err}
use arkiv_community_lb.Base.{
  ℕ, ◌*◌, ◌≡◌, ◌↔◌, refl, String, Option, some, [], ◌∷◌, length, ltb, if◌then◌else◌,
}
use arkiv_community_lb.Chain.Records.{
  decode_stored, listing_record, offer_record, agreement_record, counter_record, receipt_record,
  encode_listing, encode_offer, encode_agreement, encode_counter, encode_receipt,
}
use arkiv_community_lb.Chain.RoundTrip.{holding, stored, decode_stored-encode}
use arkiv_community_lb.Chain.Quoting.{double_quotes, read_string, read_string-double_quotes}
use arkiv_community_lb.Chain.Writer.{
  Operation, extend, seconds, Batch, too_large, failed, unresolved, Response, ErrorBody,
  read_answer,
}
use arkiv_community_lb.Chain.Writer.Sending.{Outcome, send}
use arkiv_community_lb.Chain.Writer.Split.{IsDelivery, send_lem}
use arkiv_community_lb.Chain.Writer.Answers.{read_answer_lem, IsError}
use arkiv_community_lb.Config.{Marketplace, second, validate_marketplace}
use arkiv_community_lb.Config.Accepted.{IsUsable, validate_marketplace-IsUsable}
use arkiv_community_lb.Tests.Market.{
  formats, codec, codec-IsCodec, listing, offer, agreement, counter, receipt, entity,
}

decode_stored-encode_example :
    let e = entity 11 500 900 in
    (decode_stored formats (listing_record codec) (holding formats e (encode_listing codec listing))
      ≡ ok (stored e listing))
    × (decode_stored formats (offer_record codec) (holding formats e (encode_offer codec offer))
        ≡ ok (stored e offer))
    × (decode_stored formats
          (agreement_record codec)
          (holding formats e (encode_agreement codec agreement))
        ≡ ok (stored e agreement))
    × (decode_stored formats
          (counter_record codec)
          (holding formats e (encode_counter codec counter))
        ≡ ok (stored e counter))
    × (decode_stored formats
          (receipt_record codec)
          (holding formats e (encode_receipt codec receipt))
        ≡ ok (stored e receipt))
decode_stored-encode_example =
    decode_stored-encode codec (entity 11 500 900) listing offer agreement counter receipt
      codec-IsCodec

-- Three extends, and a node that takes one operation at a time and fails the second.
abbrev extend_of : ℕ → Operation
extend_of k = extend (record { entity_key = k; expiration = seconds 2 })

abbrev three : Batch
three = extend_of 1 ∷ extend_of 2 ∷ extend_of 3 ∷ []

abbrev one_at_a_time : ℕ → Batch → Outcome
one_at_a_time call b =
    if ltb 1 (length b)
    then err (too_large [])
    else if ltb 3 call
    then err (failed [])
    else ok (record {
      tx_hash = "0x1";
      created_entities = [];
      patched_entities = [];
      deleted_entities = [];
      extended_entities = 1 ∷ [];
    })

send_lem_example : IsDelivery one_at_a_time three (send one_at_a_time 5 three)
send_lem_example = send_lem one_at_a_time three

abbrev pending : Response
pending = record { status = 504; body = "pending" }

abbrev read_error : String → Option ErrorBody
read_error _ = some (record { error = []; pending = some "0x9" })

read_answer_lem_example :
    let answer = read_answer (λ s. some s) read_error (some pending) in
    ((answer ≡ ok "done")
      ↔ ((r : Response) × (some pending ≡ some r) × (r.status ≡ 200) × (some r.body ≡ some "done")))
    × ((answer ≡ err (too_large [])) ↔ (
        (r : Response) × (b : ErrorBody) × IsError (λ s. some s) read_error (some pending) 413 r b
        × (b.error ≡ [])))
    × ((answer ≡ err (unresolved "0x9" [])) ↔ (
        (r : Response) × (b : ErrorBody) × IsError (λ s. some s) read_error (some pending) 504 r b
        × (b.error ≡ [])
        × (b.pending ≡ some "0x9")))
read_answer_lem_example =
    read_answer_lem (λ (s : String). some s) read_error (some pending) "done" "0x9" []

abbrev quote : Char
quote = char 39 tt

read_string-double_quotes_example :
    read_string (concat (double_quotes "o'k") (String.◌∷◌ quote ") AND v"))
    ≡ some ("o'k", ") AND v")
read_string-double_quotes_example = read_string-double_quotes "o'k" quote ") AND v" refl refl

abbrev configured : Marketplace
configured = record {
  writer_url = "http://127.0.0.1:8560/";
  wei_per_call = 100;
  tunnel_server = "203.0.113.10:7000";
  max_providers = 90;
  remote_port_start = 20000;
  discovery_interval = 300 * second;
  refresh_interval = 3600 * second;
  agreement_life = 259200 * second;
  listing_life = 2592000 * second;
  counter_record_life = 15552000 * second;
  offer_max_lifetime = 86400 * second;
  settlement_period = 86400 * second;
  flush_interval = 3600 * second;
  gas_warn_below = 100000000000000000;
}

validate_marketplace-IsUsable_example : IsUsable configured
unfolding validate_marketplace
validate_marketplace-IsUsable_example =
    validate_marketplace-IsUsable (λ _. some "http") configured refl
