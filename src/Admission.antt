-- ===== src/Admission.antt =====
-- crates/lb/src/marketplace/admission.rs: who is let into the tunnel. Keys and addresses are read as
-- numbers; how they are parsed and printed, and the recovery of a signer, are the libraries'.
pub mod Entitled
use Prim.Native.String.{◌++◌ as concat}
use arkiv_community_lb.Base.Results.{Result, ok, err}
use arkiv_community_lb.Chain.Records.{Agreement, Stored}
use arkiv_community_lb.Base.{ℕ, String, str_eq, Bool, Option, none, some, ◌==◌, if◌then◌else◌}

-- `Op`
pub data Op : Type 0 where
  login : Op
  new_proxy : (remote_port : ℕ) (name : String) → Op

-- `Rejection`
pub data Rejection : Type 0 where
  agreement_not_a_key token_not_a_signature wrong_signer : Rejection
  no_agreement : (key : ℕ) → Rejection
  wrong_port : (requested assigned : ℕ) → Rejection
  wrong_name : (requested expected : String) → Rejection

-- What the decision is made with: the libraries' signatures, the parses of a key and of a signature,
-- the recovery of a signer's address from a signature of a text, and numbers in decimal and in hex.
pub record Crypto : Type 1 where
  pub Signature : Type 0
  pub parse_key : String → Option ℕ
  pub parse_signature : String → Option Signature
  pub recover : Signature → String → Option ℕ
  pub decimal : ℕ → String
  pub hex : ℕ → String

-- `Token`
pub record Token (c : Crypto) : Type 0 where
  pub agreement : ℕ
  pub signature : c.Signature

unfoldable pub proxy_name : Crypto → ℕ → String
proxy_name c remote_port = concat "node-rpc-" (c.decimal remote_port)

unfoldable pub token_message : Crypto → ℕ → String
token_message c agreement = concat "arkiv-rpc:" (c.hex agreement)

-- The `and_then` of an optional text and a parse that may fail.
abbrev pub parsed : {A : Type 0} → (String → Option A) → Option String → Option A
parsed parse none = none
parsed parse (some text) = parse text

abbrev pub token_of : (c : Crypto) → Option ℕ → Option c.Signature → Result Rejection (Token c)
token_of c none signature = err agreement_not_a_key
token_of c (some key) none = err token_not_a_signature
token_of c (some key) (some signature) = ok (record { agreement = key; signature = signature })

-- `Token::parse`
unfoldable pub parse_token :
    (c : Crypto) → Option String → Option String → Result Rejection (Token c)
parse_token c agreement token =
    token_of c (parsed c.parse_key agreement) (parsed c.parse_signature token)

-- The checks on what is asked for, with the agreement found and its provider's signature.
unfoldable pub check_op : Crypto → Op → Stored Agreement → Result Rejection (Stored Agreement)
unfolding proxy_name
check_op c login s = ok s
check_op c (new_proxy remote_port name) s =
    let assigned = s.content.remote_port in
    if remote_port == assigned
    then (if str_eq name (proxy_name c assigned)
        then ok s
        else err (wrong_name name (proxy_name c assigned)))
    else err (wrong_port remote_port assigned)

abbrev pub check_signer :
    Crypto → Op → Stored Agreement → Option ℕ → Result Rejection (Stored Agreement)
check_signer c op s none = err token_not_a_signature
check_signer c op s (some signer) =
    if signer == s.content.provider then check_op c op s else err wrong_signer

-- `decide_admission`; with the agreement for the `()` of the source, as its caller takes it.
unfoldable pub decide_admission :
    (c : Crypto) → Op → Token c → Option (Stored Agreement) → Result Rejection (Stored Agreement)
unfolding check_op token_message
decide_admission c op token none = err (no_agreement token.agreement)
decide_admission c op token (some s) =
    check_signer c op s (c.recover token.signature (token_message c token.agreement))

-- The decision of admin.rs, over the agreements that are live.
unfoldable pub decision :
    (c : Crypto)
    → Op
    → (ℕ → Option (Stored Agreement))
    → Option String
    → Option String
    → Result Rejection (Stored Agreement)
unfolding parse_token decide_admission
decision c op live agreement token = elim (parse_token c agreement token) [
  | err e ↦ err e
  | ok t ↦ decide_admission c op t (live t.agreement)
]
