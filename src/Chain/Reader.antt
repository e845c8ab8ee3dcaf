-- ===== src/Chain/Reader.antt =====
-- crates/lb/src/chain/reader.rs: the queries, and how an answer of the node is read. The HTTP client
-- and the parsers of its answers are parameters.
use Prim.Native.String.{◌++◌ as concat}
use arkiv_community_lb.Base.Int.{ℤ, pos}
use arkiv_community_lb.Base.Results.{Result, ok, err, of_option, ◌>>=◌}
use arkiv_community_lb.Base.{
  ℕ, String, Bool, true, false, Option, none, some, List, [], ◌∷◌, ◌++◌, length, ltb, ◌+◌,
  if◌then◌else◌,
}
use arkiv_community_lb.Jsonrpc.{
  Json, null, boolean, text, array, object, nil, cons, Fields, field, end, value_at,
}
use arkiv_community_lb.Forwarder.{is_success, over_cap}
use arkiv_community_lb.Integrity.Entities.{ArkivEntity, BlockFields}
use arkiv_community_lb.Chain.Attributes.{
  AttributeValue, str, i32, u64, addr, key, bytes, Formats, parse_u64,
}
use arkiv_community_lb.Chain.Quoting.{double_quotes}

abbrev pub page_limit : ℕ
page_limit = 100

pub data Condition : Type 0 where
  by_key : ℕ → Condition
  creator : ℕ → Condition
  attribute : String → AttributeValue → Condition
  expires_after expires_by : ℕ → Condition

pub record Query : Type 0 where
  pub conditions : List Condition
  pub at_block : Option ℕ

-- `Query::kind` and `Query::by_key`
unfoldable pub of_kind : String → Query
of_kind kind = record {
  conditions = attribute "kind" (str kind) ∷ attribute "v" (i32 (pos 1)) ∷ [];
  at_block = none;
}

unfoldable pub of_key : ℕ → Query
of_key k = record { conditions = by_key k ∷ []; at_block = none }

-- The builders, each of which adds a condition at the end.
unfoldable pub narrowed : Condition → Query → Query
narrowed c q = record q { conditions = q.conditions ++ c ∷ [] }

unfoldable pub at : ℕ → Query → Query
at block q = record q { at_block = some block }

-- `literal`; a filter on bytes is the panic of the source.
unfoldable pub literal : Formats → (ℤ → String) → AttributeValue → Option String
literal f show_i32 (str s) = some (concat (concat "str('" (double_quotes s)) "')")
literal f show_i32 (i32 n) = some (concat (concat "i32(" (show_i32 n)) ")")
literal f show_i32 (u64 n) = some (concat (concat "u64(" (f.show_u64 n)) ")")
literal f show_i32 (addr a) = some (concat (concat "addr(" (f.show_addr a)) ")")
literal f show_i32 (key k) = some (concat (concat "key(" (f.show_key k)) ")")
literal f show_i32 (bytes _) = none

abbrev pub after_equals : String → Option String → Option String
after_equals name none = none
after_equals name (some value) = some (concat (concat name " = ") value)

-- `Condition::text`
unfoldable pub condition_text : Formats → (ℤ → String) → Condition → Option String
unfolding literal
condition_text f show_i32 (by_key k) = some (concat (concat "$key = key(" (f.show_key k)) ")")
condition_text f show_i32 (creator a) =
    some (concat (concat "$creator = addr(" (f.show_addr a)) ")")
condition_text f show_i32 (attribute name v) = after_equals name (literal f show_i32 v)
condition_text f show_i32 (expires_after head) =
    some (concat (concat "$expiresAt > u64(" (f.show_u64 head)) ")")
condition_text f show_i32 (expires_by block) =
    some (concat (concat "$expiresAt <= u64(" (f.show_u64 block)) ")")

abbrev pub joined : Option String → Option String → Option String
joined (some a) (some b) = some (concat (concat a " AND ") b)
joined _ _ = none

-- `Query::text`
unfoldable pub texts : Formats → (ℤ → String) → List Condition → Option String
unfolding condition_text
texts f show_i32 [] = some ""
texts f show_i32 (c ∷ []) = condition_text f show_i32 c
texts f show_i32 (c ∷ d ∷ cs) = joined (condition_text f show_i32 c) (texts f show_i32 (d ∷ cs))

pub record Page : Type 0 where
  pub entities : List (ArkivEntity Json)
  pub more : Bool
  pub block : ℕ

pub data BlockAt : Type 0 where
  finalized : BlockAt
  at_number : ℕ → BlockAt

pub data ReadError : Type 0 where
  transport : ReadError
  status : ℕ → ReadError
  rpc : (code : ℤ) (message : String) → ReadError
  unexpected : ReadError
  too_large : (cap : ℕ) → ReadError

-- The body as the client streams it, and what the client gives for a request.
pub data Chunks : Type 0 where
  done broken : Chunks
  chunk : List ℕ → Chunks → Chunks

pub data Answer : Type 0 where
  unreached : Answer
  response : (status : ℕ) (content_length : Option ℕ) → Chunks → Answer

-- `RpcResponse` and `QueryResult`, as serde reads them.
pub record RpcError : Type 0 where
  pub code : ℤ
  pub message : String

pub record RpcResponse : Type 0 where
  pub result : Option Json
  pub error : Option RpcError

pub record QueryResult : Type 0 where
  pub rows : List (ArkivEntity Json)
  pub cursor : Option String
  pub block_number : Json

-- `Reader::read_body`
unfoldable pub read_chunks : (cap : ℕ) → List ℕ → Chunks → Result ReadError (List ℕ)
read_chunks cap body done = ok body
read_chunks cap body broken = err transport
read_chunks cap body (chunk more_bytes rest) =
    let more = read_chunks cap (body ++ more_bytes) rest in
    if ltb cap (length body + length more_bytes) then err (too_large cap) else more

unfoldable pub read_body : (cap : ℕ) → Option ℕ → Chunks → Result ReadError (List ℕ)
unfolding read_chunks
read_body cap declared chunks =
    if over_cap cap declared then err (too_large cap) else read_chunks cap [] chunks

abbrev pub or_null : Option Json → Json
or_null none = null
or_null (some j) = j

abbrev pub rpc_result : RpcResponse → Result ReadError Json
rpc_result r = elim r.error [ some e ↦ err (rpc e.code e.message) | none ↦ ok (or_null r.result) ]

-- A call of the client: the method, the parameters, and the random id; the parsers of what comes
-- back; and how numbers are written in a query.
pub record Node : Type 0 where
  pub formats : Formats
  pub show_i32 : ℤ → String
  pub show_hex : ℕ → String
  pub cap : ℕ
  pub send : (id : ℕ) (method : String) (params : Json) → Answer
  pub response_of : List ℕ → Option RpcResponse
  pub rows_of : Json → Option QueryResult
  pub block_of : Json → Option BlockFields
  pub balance_of : Json → Option ℕ

-- A JSON value's member, null when there is none.
abbrev pub member : String → Json → Json
member name j = or_null (value_at name j)

abbrev pub is_null : Json → Bool
is_null null = true
is_null _ = false

module _ (n : Node) where
  unfoldable pub call_result : Answer → Result ReadError Json
  unfolding read_body
  call_result unreached = err transport
  call_result (response code declared chunks) =
      if is_success code
      then (read_body n.cap declared chunks >>= λ body.
          of_option unexpected (n.response_of body) >>= rpc_result)
      else err (status code)

  -- `Reader::call`
  unfoldable pub call : (id : ℕ) (method : String) (params : Json) → Result ReadError Json
  unfolding call_result
  call id method params = call_result (n.send id method params)

  unfoldable pub block_number : ℕ → Result ReadError ℕ
  unfolding call
  block_number id =
      call id "eth_blockNumber" (array nil) >>= λ j. of_option unexpected (parse_u64 n.formats j)

  -- `BlockAt::param`
  unfoldable pub param : BlockAt → Json
  param finalized = text "finalized"
  param (at_number k) = text (n.show_hex k)

  abbrev pub as_block : Json → Result ReadError (Option BlockFields)
  as_block j =
      if is_null j then ok none else (of_option unexpected (n.block_of j) >>= λ b. ok (some b))

  unfoldable pub block : ℕ → BlockAt → Result ReadError (Option BlockFields)
  unfolding call param
  block id b =
      call id "eth_getBlockByNumber" (array (cons (param b) (cons (boolean false) nil)))
      >>= as_block

  unfoldable pub balance : ℕ → (account : ℕ) → Result ReadError ℕ
  unfolding call
  balance id account =
      call id "eth_getBalance"
        (array (cons (text (n.formats.show_addr account)) (cons (text "latest") nil)))
      >>= λ j. of_option unexpected (n.balance_of j)

  abbrev pub at_field : Option ℕ → Fields
  at_field none = end
  at_field (some k) = field "atBlock" (text (n.show_hex k)) end

  -- The options of a query for rows.
  unfoldable pub row_options : Option ℕ → Json
  row_options at_block =
      let yes = boolean true in
      object (
        field "select"
          (object (
            field "key" yes (
              field "creator" yes (
                field "createdAt" yes
                  (field "updatedAt" yes (field "expiresAt" yes (field "attributes" yes end)))))))
          (field "limit" (text (n.show_hex page_limit)) (at_field at_block)))

  abbrev pub as_page : Json → Result ReadError Page
  as_page j = of_option unexpected (n.rows_of j) >>= λ r.
      of_option unexpected (parse_u64 n.formats r.block_number) >>= λ b. ok (record {
        entities = r.rows;
        more = elim r.cursor [ none ↦ false | some _ ↦ true ];
        block = b;
      })

  -- `Reader::query` and `Reader::count`; without an answer where the query has no text.
  unfoldable pub query : ℕ → Query → Option (Result ReadError Page)
  unfolding call texts row_options
  query id q = elim (texts n.formats n.show_i32 q.conditions) [
    | none ↦ none
    | some t ↦ some (
        call id "arkiv_query" (array (cons (text t) (cons (row_options q.at_block) nil)))
        >>= as_page)
  ]

  unfoldable pub count : ℕ → Query → Option (Result ReadError ℕ)
  unfolding call texts
  count id q = elim (texts n.formats n.show_i32 q.conditions) [
    | none ↦ none
    | some t ↦ some (
        call id "arkiv_query" (
          array (
            cons (text t)
              (cons (object (field "select" (object (field "count" (boolean true) end)) end)) nil)))
        >>= λ j. of_option unexpected (parse_u64 n.formats (member "count" j)))
  ]
