-- ===== src/Forwarder.antt =====
-- crates/lb/src/forwarder.rs: one attempt at one provider, over what the HTTP client hands back.
pub mod Answers
use arkiv_community_lb.Base.{
  ℕ, zero, suc, ◌+◌, ◌≤◌, Bool, true, false, not, ◌&&◌, ◌||◌, Option, none, some, List, [], ◌∷◌,
  ◌++◌, length, find, ltb, leb, ◌==◌, if◌then◌else◌,
}
use arkiv_community_lb.Jsonrpc.{
  Json, null, boolean, number, text, array, object, Items, nil, cons, Fields, value_at, field_of,
}

-- The body of a response as the client streams it; a failed read says whether it timed out.
pub data Body : Type 0 where
  done : Body
  chunk : List ℕ → Body → Body
  broken : (timeout : Bool) → Body

-- `send().await`
pub data Sent : Type 0 where
  failed : (timeout : Bool) → Sent
  response : (status : ℕ) (content_length : Option ℕ) → Body → Sent

pub data Outcome : Type 0 where
  answer : (status : ℕ) → List ℕ → Outcome
  no_answer timed_out too_large : Outcome

unfoldable pub failure : Bool → Outcome
failure timeout = if timeout then timed_out else no_answer

-- `u8::is_ascii_whitespace`
abbrev pub is_blank : ℕ → Bool
is_blank b = b == 32 || (b == 9 || (b == 10 || (b == 12 || b == 13)))

unfoldable pub looks_like_json : List ℕ → Bool
looks_like_json body = elim (find (λ b. not (is_blank b)) body) [
  | none ↦ false
  | some b ↦ b == b'{' || b == b'['
]

abbrev pub refusal_max : ℕ
refusal_max = 4096

abbrev has_value : Option Json → Bool
has_value none = false
has_value (some _) = true

abbrev all_carry : Items → Bool
all_carry nil = true
all_carry (cons item rest) = if has_value (value_at "jsonrpc" item) then all_carry rest else false

abbrev is_envelope : Option Json → Bool
is_envelope (some (object fields)) = has_value (field_of "jsonrpc" fields)
is_envelope (some (array nil)) = false
is_envelope (some (array (cons item rest))) = all_carry (cons item rest)
is_envelope _ = false

module _ (parse_json : List ℕ → Option Json) where
  unfoldable pub is_json_rpc_response : List ℕ → Bool
  is_json_rpc_response body =
      if ltb refusal_max (length body) then false else is_envelope (parse_json body)

-- Status codes of the 200s.
abbrev pub is_success : ℕ → Bool
is_success status = leb 200 status && ltb status 300

abbrev pub over_cap : ℕ → Option ℕ → Bool
over_cap cap none = false
over_cap cap (some n) = ltb cap n

-- The chunks read into one buffer of at most `cap` bytes, or how the read ended instead.
pub data Read : Type 0 where
  whole : List ℕ → Read
  cut : Outcome → Read

unfoldable pub read_body : ℕ → List ℕ → Body → Read
unfolding failure
read_body cap collected done = whole collected
read_body cap collected (chunk bytes rest) =
    let more = read_body cap (collected ++ bytes) rest in
    if ltb cap (length collected + length bytes) then cut too_large else more
read_body cap collected (broken timeout) = cut (failure timeout)

module _ (parse_json : List ℕ → Option Json) where
  unfoldable pub judge_body : ℕ → List ℕ → Outcome
  judge_body status body =
      if not (looks_like_json body)
      then no_answer
      else if status == 400 && not (is_json_rpc_response parse_json body)
      then no_answer
      else answer status body

  abbrev judge_read : ℕ → Read → Outcome
  judge_read status (whole body) = judge_body status body
  judge_read status (cut o) = o

  -- `Forwarder::attempt`, after the send.
  unfoldable pub attempt : ℕ → Sent → Outcome
  attempt cap (failed timeout) = failure timeout
  attempt cap (response status content_length body) =
      if not (is_success status || status == 400)
      then no_answer
      else if over_cap cap content_length
      then too_large
      else judge_read status (read_body cap [] body)
