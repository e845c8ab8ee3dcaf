-- ===== src/Chain/Writer.antt =====
-- crates/lb/src/chain/writer.rs: the client of the chain-writer sidecar. Its HTTP client and the
-- parsing of its answers are parameters.
pub mod Answers
pub mod Sending
pub mod Split
use arkiv_community_lb.Base.Int.{ℤ, pos}
use arkiv_community_lb.Base.Results.{Result, ok, err, of_option, ◌>>=◌}
use arkiv_community_lb.Base.{
  ℕ, ◌/◌, String, Bool, true, false, Option, none, some, List, [], ◌∷◌, ◌++◌, map, length, take,
  drop, ltb, ◌==◌, if◌then◌else◌,
}
use arkiv_community_lb.Jsonrpc.{
  Json, null, boolean, number, text, array, object, Items, nil, cons, Fields, field, end,
}
use arkiv_community_lb.Chain.Attributes.{AttributeValue, Formats, to_wire, Attributes}

pub data Expiry : Type 0 where
  seconds : ℕ → Expiry

pub record Create : Type 0 where
  pub attributes : Attributes
  pub expiration : Expiry

pub record Patch : Type 0 where
  pub entity_key : ℕ
  pub set : Attributes

pub record Extend : Type 0 where
  pub entity_key : ℕ
  pub expiration : Expiry

pub record Delete : Type 0 where
  pub entity_key : ℕ

pub data Operation : Type 0 where
  create : Create → Operation
  patch : Patch → Operation
  delete : Delete → Operation
  extend : Extend → Operation

abbrev pub Batch : Type 0
Batch = List Operation

-- `Batch::push`
unfoldable pub push : Batch → Operation → Batch
push batch operation = batch ++ (operation ∷ [])

-- `Batch::halves`
unfoldable pub halves : Batch → Option (Batch × Batch)
halves ops =
    if ltb (length ops) 2 then none else some (take (length ops / 2) ops, drop (length ops / 2) ops)

pub record Created : Type 0 where
  pub entity_key : ℕ
  pub tx_hash : String
  pub expires_at : ℕ

pub record Written : Type 0 where
  pub entity_key : ℕ
  pub tx_hash : String

pub record Extended : Type 0 where
  pub entity_key : ℕ
  pub tx_hash : String
  pub expires_at : ℕ

pub record BatchResult : Type 0 where
  pub tx_hash : String
  pub created_entities : List ℕ
  pub patched_entities : List ℕ
  pub deleted_entities : List ℕ
  pub extended_entities : List ℕ

pub record Identity : Type 0 where
  pub address : ℕ
  pub chain_id : ℕ

pub record ErrorLink : Type 0 where
  pub name : String
  pub message : String
  pub details : Option String

pub data WriteError : Type 0 where
  refused too_large failed : List ErrorLink → WriteError
  unresolved : (tx_hash : String) → (errors : List ErrorLink) → WriteError
  unexpected : (status : ℕ) → (body : String) → WriteError
  transport : WriteError

pub record Sent : Type 0 where
  pub batch : Batch
  pub result : Result WriteError BatchResult

-- The operations of a kind, in order.
unfoldable pub creates : Batch → List Create
creates [] = []
creates (create c ∷ ops) = c ∷ creates ops
creates (_ ∷ ops) = creates ops

unfoldable pub patches : Batch → List Patch
patches [] = []
patches (patch p ∷ ops) = p ∷ patches ops
patches (_ ∷ ops) = patches ops

unfoldable pub deletes : Batch → List Delete
deletes [] = []
deletes (delete d ∷ ops) = d ∷ deletes ops
deletes (_ ∷ ops) = deletes ops

unfoldable pub extensions : Batch → List Extend
extensions [] = []
extensions (extend e ∷ ops) = e ∷ extensions ops
extensions (_ ∷ ops) = extensions ops

-- `Attributes::to_wire`
unfoldable pub wire_fields : Formats → Attributes → Fields
unfolding to_wire
wire_fields f [] = end
wire_fields f ((name, v) ∷ m) = field name (to_wire f v) (wire_fields f m)

unfoldable pub expiry_json : Expiry → Json
expiry_json (seconds n) = object (field "seconds" (number (pos n)) end)

unfoldable pub create_json : Formats → Create → Json
unfolding wire_fields expiry_json
create_json f c = object (
    field "attributes" (object (wire_fields f c.attributes))
      (field "expiration" (expiry_json c.expiration) end))

unfoldable pub patch_json : Formats → Patch → Json
unfolding wire_fields
patch_json f p = object (
    field "entityKey" (text (f.show_key p.entity_key))
      (field "set" (object (wire_fields f p.set)) end))

unfoldable pub extend_json : Formats → Extend → Json
unfolding expiry_json
extend_json f e = object (
    field "entityKey" (text (f.show_key e.entity_key))
      (field "expiration" (expiry_json e.expiration) end))

unfoldable pub delete_json : Formats → Delete → Json
delete_json f d = object (field "entityKey" (text (f.show_key d.entity_key)) end)

abbrev pub items : List Json → Items
items [] = nil
items (j ∷ js) = cons j (items js)

-- A kind of the body; an empty one is left out.
abbrev pub kind_field : String → List Json → Fields → Fields
kind_field name [] rest = rest
kind_field name (j ∷ js) rest = field name (array (items (j ∷ js))) rest

-- The body of a batch: the operations by kind.
unfoldable pub batch_json : Formats → Batch → Json
unfolding create_json patch_json delete_json extend_json creates patches deletes extensions
batch_json f ops = object (
    kind_field "creates" (map (create_json f) (creates ops)) (
      kind_field "patches" (map (patch_json f) (patches ops)) (
        kind_field "deletes" (map (delete_json f) (deletes ops))
          (kind_field "extensions" (map (extend_json f) (extensions ops)) end))))

pub data Method : Type 0 where
  get post : Method

pub record Request : Type 0 where
  pub method : Method
  pub route : String
  pub body : Option Json
  pub timeout : ℕ

pub record Response : Type 0 where
  pub status : ℕ
  pub body : String

pub record ErrorBody : Type 0 where
  pub error : List ErrorLink
  pub pending : Option String

abbrev pub write_timeout : ℕ
write_timeout = 200

-- The error that a status other than 200 stands for.
unfoldable pub status_error : Response → ErrorBody → WriteError
status_error r b =
    if r.status == 400
    then refused b.error
    else if r.status == 413
    then too_large b.error
    else if r.status == 500
    then failed b.error
    else if r.status == 504
    then elim b.pending [ none ↦ unexpected r.status r.body | some tx ↦ unresolved tx b.error ]
    else unexpected r.status r.body

-- `Writer::post`, from what the client gives: nothing, or a status and a text.
unfoldable pub read_answer :
    {R : Type 0}
    → (String → Option R)
    → (String → Option ErrorBody)
    → Option Response
    → Result WriteError R
unfolding status_error
read_answer parse parse_error none = err transport
read_answer parse parse_error (some r) =
    if r.status == 200
    then of_option (unexpected r.status r.body) (parse r.body)
    else of_option (unexpected r.status r.body) (parse_error r.body) >>= λ b. err (status_error r b)

-- The client and the parsers of the answers.
pub record Sidecar : Type 0 where
  pub formats : Formats
  pub call : Request → Option Response
  pub identity_of : String → Option Identity
  pub created_of : String → Option Created
  pub written_of : String → Option Written
  pub extended_of : String → Option Extended
  pub batch_of : String → Option BatchResult
  pub error_of : String → Option ErrorBody

module _ (w : Sidecar) where
  unfoldable pub post_json :
      {R : Type 0} → (String → Option R) → (route : String) → Json → Result WriteError R
  unfolding read_answer
  post_json parse route body =
      read_answer parse w.error_of (
        w.call (record { method = post; route = route; body = some body; timeout = write_timeout }))

  abbrev pub read_identity : Option Response → Result WriteError Identity
  read_identity none = err transport
  read_identity (some r) =
      if r.status == 200
      then of_option (unexpected r.status r.body) (w.identity_of r.body)
      else err (unexpected r.status r.body)

  unfoldable pub identity : Result WriteError Identity
  identity =
      read_identity (w.call (record { method = get; route = "identity"; body = none; timeout = 5 }))

  unfoldable pub write_create : Create → Result WriteError Created
  unfolding post_json create_json
  write_create c = post_json w.created_of "create" (create_json w.formats c)

  unfoldable pub write_patch : Patch → Result WriteError Written
  unfolding post_json patch_json
  write_patch p = post_json w.written_of "patch" (patch_json w.formats p)

  unfoldable pub write_delete : Delete → Result WriteError Written
  unfolding post_json delete_json
  write_delete d = post_json w.written_of "delete" (delete_json w.formats d)

  unfoldable pub write_extend : Extend → Result WriteError Extended
  unfolding post_json extend_json
  write_extend e = post_json w.extended_of "extend" (extend_json w.formats e)

  unfoldable pub execute_batch : Batch → Result WriteError BatchResult
  unfolding post_json batch_json
  execute_batch b = post_json w.batch_of "execute-batch" (batch_json w.formats b)
