-- ===== src/Jsonrpc.antt =====
-- crates/lb/src/jsonrpc.rs: the error envelopes that the load balancer answers itself, over the
-- values of serde_json. How a body parses is serde_json's, a parameter.
use arkiv_community_lb.Base.Int.{ℤ, neg}
use arkiv_community_lb.Base.{ℕ, String, str_eq, Bool, Option, none, some, List, if◌then◌else◌}

mutual
  pub data Json : Type 0 where
    null : Json
    boolean : Bool → Json
    number : ℤ → Json
    text : String → Json
    array : Items → Json
    object : Fields → Json

  pub data Items : Type 0 where
    nil : Items
    cons : Json → Items → Items

  pub data Fields : Type 0 where
    end : Fields
    field : String → Json → Fields → Fields

abbrev pub field_of : String → Fields → Option Json
field_of k end = none
field_of k (field j v fs) = if str_eq j k then some v else field_of k fs

-- `Value::get` with a key
abbrev pub value_at : String → Json → Option Json
value_at k (object fs) = field_of k fs
value_at k _ = none

abbrev pub method_denied : ℤ
method_denied = neg 32050

abbrev pub no_healthy_provider : ℤ
no_healthy_provider = neg 32051

abbrev pub request_timed_out : ℤ
request_timed_out = neg 32052

abbrev pub response_too_large : ℤ
response_too_large = neg 32053

abbrev pub request_too_large : ℤ
request_too_large = neg 32054

-- `error_response`; the message is given with its `lb: ` prefix.
unfoldable pub error_response : ℤ → String → Json → Json
error_response code message id = object (
    field "jsonrpc" (text "2.0") (
      field "id" id (
        field "error" (object (field "code" (number code) (field "message" (text message) end)))
          end)))

module _ (parse_json : List ℕ → Option Json) where
  unfoldable pub extract_id : List ℕ → Json
  extract_id body = elim (parse_json body) [
    | none ↦ null
    | some request ↦ elim (value_at "id" request) [ none ↦ null | some id ↦ id ]
  ]
