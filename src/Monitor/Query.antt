-- ===== src/Monitor/Query.antt =====
-- monitor.rs `query`: one round trip of a probe, over what the HTTP client hands back.
use arkiv_community_lb.Base.{
  ℕ, ◌≤◌, ◌≡◌, ◌↔◌, refl, inl, inr, true, Option, none, some, List, [], length, arith, Bool-cases,
  if◌then◌else◌,
}
use arkiv_community_lb.Jsonrpc.{Json, value_at}
use arkiv_community_lb.Forwarder.{
  Body, Sent, failed, response, is_success, Read, whole, cut, read_body,
}
use arkiv_community_lb.Forwarder.Answers.{
  content, read_body-Collects, Collects-read_body, read_cases,
}
use arkiv_community_lb.Monitor.Quantity.{hex_quantity}

-- `PROBE_RESPONSE_CAP`
abbrev pub probe_response_cap : ℕ
probe_response_cap = 4096

-- The `?` on two results in a row.
abbrev pub then_some {ℓ} : {A : Type ℓ} {C : Type ℓ} → (A → Option C) → Option A → Option C
then_some f none = none
then_some f (some a) = f a

module _ (parse_json : List ℕ → Option Json) where
  unfoldable pub quantity_of : List ℕ → Option ℕ
  quantity_of body = then_some hex_quantity (then_some (value_at "result") (parse_json body))

  abbrev pub quantity_read : Read → Option ℕ
  quantity_read (whole body) = quantity_of body
  quantity_read (cut _) = none

  unfoldable pub query : Sent → Option ℕ
  unfolding quantity_of
  query (failed _) = none
  query (response status _ body) =
      if is_success status then quantity_read (read_body probe_response_cap [] body) else none

  -- A probe has an answer exactly when the status is a success, the body was read to its end within
  -- the cap, and its "result" is the quantity.
  pub record Replied (status : ℕ) (body : Body) (n : ℕ) : Type 0 where
    pub bytes : List ℕ
    pub value : Json
    pub result : Json
    pub succeeded : is_success status ≡ true
    pub complete : content body ≡ some bytes
    pub fits : length bytes ≤ probe_response_cap
    pub parsed : parse_json bytes ≡ some value
    pub has_result : value_at "result" value ≡ some result
    pub is_quantity : hex_quantity result ≡ some n

  then_some-eq {ℓ} :
      {A : Type ℓ} {C : Type ℓ} (f : A → Option C) (o : Option A) (c : C)
      → then_some f o ≡ some c
      → (a : A) × (o ≡ some a) × (f a ≡ some c)
  then_some-eq f none c h = cc
  then_some-eq f (some a) c h = (a, refl, h)

  if_answered :
      (status n : ℕ) (declared : Option ℕ) (body : Body)
      → query (response status declared body) ≡ some n
      → Replied status body n
  unfolding query
  if_answered status n declared body h = elim (Bool-cases (is_success status)) [
    | inr bad ↦ cc (rw bad at h)
    | inl good ↦ elim (read_cases (read_body probe_response_cap [] body)) [
      | inr (o, e) ↦ cc (rw (good, e) at h)
      | inl (bytes, e) ↦
          let (result, found, quantity) =
            then_some-eq hex_quantity (then_some (value_at "result") (parse_json bytes)) n
              (rw (good, e) at h) in
          let (value, parsed, has) =
            then_some-eq (value_at "result") (parse_json bytes) result found in
          let (more, c, e', l) =
            read_body-Collects probe_response_cap [] body bytes (omega arith) e in
          record {
            bytes = bytes;
            value = value;
            result = result;
            succeeded = good;
            complete = rw e' c;
            fits = l;
            parsed = parsed;
            has_result = has;
            is_quantity = quantity;
          }
    ]
  ]

  -- A probe that got a response has the quantity for its answer exactly when the status is a
  -- success, the body was read to its end, is within the cap and parses, and its "result" is that
  -- quantity.
  pub query-Replied :
      (status n : ℕ) (declared : Option ℕ) (body : Body)
      → (query (response status declared body) ≡ some n) ↔ Replied status body n
  unfolding query
  query-Replied status n declared body = (
    if_answered status n declared body,
    (λ r.
        let read =
          Collects-read_body probe_response_cap [] body r.bytes (omega arith)
            (r.bytes, r.complete, refl, r.fits) in
        rw (r.succeeded, read, r.parsed, r.has_result) r.is_quantity),
  )
