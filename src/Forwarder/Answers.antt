-- ===== src/Forwarder/Answers.antt =====
-- forwarder.rs: what counts as a provider's answer, and what an attempt may hold of it.
use arkiv_community_lb.Base.{
  append-nil, append_assoc, ℕ, ◌+◌, ◌≤◌, ◌≡◌, ◌↔◌, refl, ◌∙◌, sym, ap, inl, inr, ◌⊎◌, ◌≢◌, true,
  false, not, ◌||◌, Option, none, some, List, [], ◌++◌, length, length-append, ltb, ◌==◌, arith,
  Bool-cases, Option-cases, some-eq,
}
use arkiv_community_lb.Jsonrpc.{Json}
use arkiv_community_lb.Forwarder.{
  Body, done, chunk, broken, response, Outcome, answer, failure, looks_like_json,
  is_json_rpc_response, is_success, over_cap, Read, whole, cut, read_body, judge_body, attempt,
}

-- The bytes of a body that was read to its end.
abbrev pub content : Body → Option (List ℕ)
content done = some []
content (chunk bytes rest) = elim (content rest) [ none ↦ none | some more ↦ some (bytes ++ more) ]
content (broken _) = none

-- What makes a response an answer with these bytes.
pub record Answers (parse_json : List ℕ → Option Json) (cap status : ℕ) (declared : Option ℕ)
    (body : Body) (bytes : List ℕ) : Type 0 where
  pub complete : content body ≡ some bytes
  pub fits : length bytes ≤ cap
  pub declared_fits : over_cap cap declared ≡ false
  pub by_status : is_success status || status == 400 ≡ true
  pub is_json : looks_like_json bytes ≡ true
  pub refusal_is_json_rpc : (not (status == 400) || is_json_rpc_response parse_json bytes) ≡ true

-- The end of a read of a body into a buffer that holds some bytes already.
abbrev pub Collects : ℕ → List ℕ → Body → List ℕ → Type 0
Collects cap before body bytes =
    (more : List ℕ) × (content body ≡ some more) × (bytes ≡ before ++ more) × (length bytes ≤ cap)

content-chunk :
    (bytes more : List ℕ) (rest : Body)
    → content (chunk bytes rest) ≡ some more
    → (tail : List ℕ) × (content rest ≡ some tail) × (more ≡ bytes ++ tail)
content-chunk bytes more rest h = elim (Option-cases (content rest)) [
  | inl e ↦ cc (rw e at h)
  | inr (tail, e) ↦ (tail, e, sym (some-eq (rw e at h)))
]

pub read_body-Collects :
    (cap : ℕ) (before : List ℕ) (body : Body) (bytes : List ℕ)
    → length before ≤ cap
    → read_body cap before body ≡ whole bytes
    → Collects cap before body bytes
unfolding read_body failure
read_body-Collects cap before done bytes f h =
    ([], refl, ground (arith, append-nil before), ground arith)
read_body-Collects cap before (broken t) bytes f h = cc
read_body-Collects cap before (chunk b rest) bytes f h =
    elim (Bool-cases (ltb cap (length before + length b))) [
      | inl over ↦ cc (rw over at h)
      | inr fits ↦
          let inside : length (before ++ b) ≤ cap = ground (arith, length-append before b) in
          let (more, c, e, l) =
            read_body-Collects cap (before ++ b) rest bytes inside (rw fits at h) in
          (b ++ more, rw c, e ∙ append_assoc before b more, l)
    ]

pub Collects-read_body :
    (cap : ℕ) (before : List ℕ) (body : Body) (bytes : List ℕ)
    → length before ≤ cap
    → Collects cap before body bytes
    → read_body cap before body ≡ whole bytes
unfolding read_body failure
Collects-read_body cap before done bytes f (more, c, e, l) =
    ground (arith, some-eq c, append-nil before)
Collects-read_body cap before (broken t) bytes f (more, c, e, l) = cc
Collects-read_body cap before (chunk b rest) bytes f (more, c, e, l) =
    let (tail, c', m) = content-chunk b more rest c in
    let e' : bytes ≡ (before ++ b) ++ tail =
      e ∙ ap (◌++◌ before) m ∙ sym (append_assoc before b tail) in
    let fits : ltb cap (length before + length b) ≡ false =
      ground (arith, length-append before b, length-append (before ++ b) tail, ap length e') in
    let inside : length (before ++ b) ≤ cap = ground (arith, length-append before b) in
    rw fits (Collects-read_body cap (before ++ b) rest bytes inside (tail, c', e', l))

pub read_cases : (r : Read) → ((b : List ℕ) × (r ≡ whole b)) ⊎ ((o : Outcome) × (r ≡ cut o))
read_cases (whole b) = inl (b, refl)
read_cases (cut o) = inr (o, refl)

-- A read that was cut short gives no answer.
cut_no_answer :
    (cap : ℕ) (before : List ℕ) (body : Body) (o : Outcome) (status : ℕ) (bytes : List ℕ)
    → read_body cap before body ≡ cut o
    → o ≢ answer status bytes
unfolding read_body failure
cut_no_answer cap before done o status bytes h e = cc
cut_no_answer cap before (broken true) o status bytes h e = cc
cut_no_answer cap before (broken false) o status bytes h e = cc
cut_no_answer cap before (chunk b rest) o status bytes h e =
    ground (arith, cut_no_answer cap (before ++ b) rest o status bytes)

module _ (parse_json : List ℕ → Option Json) (cap status : ℕ) (declared : Option ℕ) (body : Body)
    (bytes : List ℕ) where
  attempt_answers :
      attempt parse_json cap (response status declared body) ≡ answer status bytes
      → Answers parse_json cap status declared body bytes
  unfolding attempt judge_body failure
  attempt_answers h = elim (read_cases (read_body cap [] body)) [
    | inr (o, e) ↦ ground (arith, cut_no_answer cap [] body o status bytes e)
    | inl (b, e) ↦
        let same : b ≡ bytes = ground arith in
        let (more, c, e', l) =
          read_body-Collects cap [] body bytes (omega arith) (e ∙ ap whole same) in
        record {
          complete = rw e' c;
          fits = l;
          declared_fits = ground arith;
          by_status = ground arith;
          is_json = ground arith;
          refusal_is_json_rpc = ground arith;
        }
  ]

  answers_attempt :
      Answers parse_json cap status declared body bytes
      → attempt parse_json cap (response status declared body) ≡ answer status bytes
  unfolding attempt judge_body failure
  answers_attempt a =
      let read =
        Collects-read_body cap [] body bytes (omega arith) (bytes, a.complete, refl, a.fits) in
      ground (arith, read)

  -- An attempt that got a response answers with its status and these bytes exactly when the status
  -- is a success or 400, the declared length and the bytes themselves are within the cap, the body
  -- was read to its end and is these bytes, they begin as a JSON object or array, and under a 400
  -- they are a JSON-RPC response.
  pub attempt-Answers :
      (attempt parse_json cap (response status declared body) ≡ answer status bytes)
      ↔ Answers parse_json cap status declared body bytes
  attempt-Answers = (attempt_answers, answers_attempt)
