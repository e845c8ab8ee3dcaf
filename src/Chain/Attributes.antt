-- ===== src/Chain/Attributes.antt =====
-- crates/lb/src/chain/records.rs: the typed attributes of a record, as they are written and read.
-- Addresses and entity keys are read as numbers.
use arkiv_community_lb.Base.Int.{ℤ, pos, neg, leb_ℤ}
use arkiv_community_lb.Base.Results.{Result, ok, err, of_option, ◌>>=◌}
use arkiv_community_lb.Base.{
  ℕ, ◌-◌, ◌^◌, String, str_eq, false, ◌&&◌, ◌||◌, Option, none, some, List, [], ◌∷◌, any, ltb,
  if◌then◌else◌, u64_mod,
}
use arkiv_community_lb.Jsonrpc.{Json, boolean, number, text, object, field, end}
use arkiv_community_lb.Denylist.{codes}
use arkiv_community_lb.Integrity.Entities.{ArkivAttribute, name_le}
use arkiv_community_lb.Monitor.Quantity.{from_str_radix_16, strip_0x}

pub data AttributeValue : Type 0 where
  str : String → AttributeValue
  i32 : ℤ → AttributeValue
  u64 addr key : ℕ → AttributeValue
  bytes : List ℕ → AttributeValue

-- `RecordError`, without the parser's own text.
pub data RecordError : Type 0 where
  missing_attribute : (name : String) → RecordError
  attribute_type : (name found expected : String) → RecordError
  payload not_this_record : String → RecordError
  version : ℤ → RecordError

unfoldable pub type_tag : AttributeValue → String
type_tag (str _) = "str"
type_tag (i32 _) = "i32"
type_tag (u64 _) = "u64"
type_tag (addr _) = "addr"
type_tag (key _) = "key"
type_tag (bytes _) = "bytes"

unfoldable pub mismatch : AttributeValue → (name expected : String) → RecordError
unfolding type_tag
mismatch v name expected = attribute_type name (type_tag v) expected

-- How the libraries print and parse keys, addresses, bytes and numbers.
pub record Formats : Type 0 where
  pub show_key : ℕ → String
  pub parse_key : String → Option ℕ
  pub show_addr : ℕ → String
  pub parse_addr : String → Option ℕ
  pub show_bytes : List ℕ → String
  pub parse_bytes : String → Option (List ℕ)
  pub show_u64 : ℕ → String
  pub parse_decimal : String → Option ℕ

-- The value of an attribute on either side of the wire.
unfoldable pub wire_value : Formats → AttributeValue → Json
wire_value f (str s) = text s
wire_value f (i32 n) = number n
wire_value f (u64 n) = text (f.show_u64 n)
wire_value f (addr a) = text (f.show_addr a)
wire_value f (key k) = text (f.show_key k)
wire_value f (bytes b) = text (f.show_bytes b)

-- The value with its type, and for bytes that they are not indexed.
unfoldable pub to_wire : Formats → AttributeValue → Json
unfolding wire_value type_tag
to_wire f (bytes b) = object (
    field "type" (text "bytes")
      (field "value" (wire_value f (bytes b)) (field "indexed" (boolean false) end)))
to_wire f v = object (field "type" (text (type_tag v)) (field "value" (wire_value f v) end))

-- The readings of a JSON value.
abbrev pub as_text : Json → Option String
as_text (text s) = some s
as_text _ = none

abbrev pub within_i32 : ℤ → Option ℤ
within_i32 n = if leb_ℤ (neg (2 ^ 31)) n && leb_ℤ n (pos (2 ^ 31 - 1)) then some n else none

abbrev pub as_i32 : Json → Option ℤ
as_i32 (number n) = within_i32 n
as_i32 _ = none

abbrev pub parse_text : {A : Type 0} → (String → Option A) → Json → Option A
parse_text parse (text s) = parse s
parse_text parse _ = none

-- `parse_u64`: a number, a hex quantity, or decimal text.
abbrev pub parse_u64_text : Formats → String → Option (List ℕ) → Option ℕ
parse_u64_text f s (some hex) = from_str_radix_16 hex
parse_u64_text f s none = f.parse_decimal s

unfoldable pub parse_u64 : Formats → Json → Option ℕ
unfolding from_str_radix_16
parse_u64 f (number (ℤ.pos n)) = if ltb n u64_mod then some n else none
parse_u64 f (text s) = parse_u64_text f s (strip_0x (codes s))
parse_u64 f _ = none

abbrev pub wrapped : {A : Type 0} → (A → AttributeValue) → Option A → Option AttributeValue
wrapped make none = none
wrapped make (some a) = some (make a)

-- `from_read`
unfoldable pub from_read : Formats → ArkivAttribute Json → Option AttributeValue
unfolding parse_u64
from_read f a =
    if str_eq a.type_tag "str"
    then wrapped str (as_text a.value)
    else if str_eq a.type_tag "i32"
    then wrapped i32 (as_i32 a.value)
    else if str_eq a.type_tag "u64"
    then wrapped u64 (parse_u64 f a.value)
    else if str_eq a.type_tag "addr"
    then wrapped addr (parse_text f.parse_addr a.value)
    else if str_eq a.type_tag "key" || str_eq a.type_tag "bytes32"
    then wrapped key (parse_text f.parse_key a.value)
    else if str_eq a.type_tag "bytes"
    then wrapped bytes (parse_text f.parse_bytes a.value)
    else none

abbrev pub read_tag : AttributeValue → String
read_tag (key _) = "bytes32"
read_tag (str _) = "str"
read_tag (i32 _) = "i32"
read_tag (u64 _) = "u64"
read_tag (addr _) = "addr"
read_tag (bytes _) = "bytes"

-- `AttributeValue::to_read`
unfoldable pub to_read : Formats → String → AttributeValue → ArkivAttribute Json
unfolding wire_value
to_read f name v = record { name = name; type_tag = read_tag v; value = wire_value f v }

-- `Attributes`: the map in the order of the names.
abbrev pub Attributes : Type 0
Attributes = List (String × AttributeValue)

-- `BTreeMap::insert`
unfoldable pub set : String → AttributeValue → Attributes → Attributes
unfolding name_le
set name v [] = (name, v) ∷ []
set name v ((n, w) ∷ m) =
    let rest = set name v m in
    if str_eq n name
    then (name, v) ∷ m
    else if name_le name n
    then (name, v) ∷ (n, w) ∷ m
    else (n, w) ∷ rest

unfoldable pub get : String → Attributes → Option AttributeValue
get name [] = none
get name ((n, w) ∷ m) = if str_eq n name then some w else get name m

-- `Attributes::new`
unfoldable pub new : String → Attributes
unfolding set
new kind = set "v" (i32 (ℤ.pos 1)) (set "kind" (str kind) [])

-- `keep`: the ones with a name of the list.
unfoldable pub keep : List String → Attributes → Attributes
keep names [] = []
keep names ((n, w) ∷ m) =
    if any (λ name. str_eq name n) names then (n, w) ∷ keep names m else keep names m

abbrev pub as_bytes : Option AttributeValue → Option (List ℕ)
as_bytes (some (bytes b)) = some b
as_bytes _ = none

unfoldable pub payload_of : Attributes → Option (List ℕ)
unfolding get
payload_of m = as_bytes (get "payload" m)

unfoldable pub present : String → Attributes → Result RecordError AttributeValue
unfolding get
present name m = of_option (missing_attribute name) (get name m)

-- The typed getters.
abbrev pub want_str : String → AttributeValue → Result RecordError String
want_str name (str s) = ok s
want_str name v = err (mismatch v name "str")

abbrev pub want_i32 : String → AttributeValue → Result RecordError ℤ
want_i32 name (i32 n) = ok n
want_i32 name v = err (mismatch v name "i32")

abbrev pub want_addr : String → AttributeValue → Result RecordError ℕ
want_addr name (addr a) = ok a
want_addr name v = err (mismatch v name "addr")

abbrev pub want_key : String → AttributeValue → Result RecordError ℕ
want_key name (key k) = ok k
want_key name v = err (mismatch v name "key")

unfoldable pub str_at : String → Attributes → Result RecordError String
unfolding present mismatch
str_at name m = present name m >>= want_str name

unfoldable pub i32_at : String → Attributes → Result RecordError ℤ
unfolding present mismatch
i32_at name m = present name m >>= want_i32 name

unfoldable pub addr_at : String → Attributes → Result RecordError ℕ
unfolding present mismatch
addr_at name m = present name m >>= want_addr name

unfoldable pub key_at : String → Attributes → Result RecordError ℕ
unfolding present mismatch
key_at name m = present name m >>= want_key name
