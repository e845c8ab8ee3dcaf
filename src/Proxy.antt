-- ===== src/Proxy.antt =====
-- crates/lb/src/proxy.rs: the checks on a request and the forward with failover. The clock, the
-- providers' responses and what other tasks do meanwhile are inputs, one record for each turn of
-- the retry loop.
pub mod History
pub mod Endings
use Prim.Native.String.{◌++◌ as concat}
use arkiv_community_lb.Base.Int.{ℤ}
use arkiv_community_lb.Base.{
  ℕ, zero, suc, ◌+◌, ◌-◌, ◌%◌, min, String, Bool, true, false, not, Option, none, some, List, [],
  ◌∷◌, leb, ◌==◌, if◌then◌else◌, u32_mod,
}
use arkiv_community_lb.Jsonrpc.{
  Json, error_response, extract_id, method_denied, no_healthy_provider, request_timed_out,
  response_too_large, request_too_large,
}
use arkiv_community_lb.Denylist.{denied}
use arkiv_community_lb.Forwarder.{
  Sent, Outcome, answer, no_answer, timed_out, too_large, attempt, looks_like_json,
}
use arkiv_community_lb.Provider.Defs.{
  Provider, traffic, record_health, record_served, record_transport_failure, answered_since,
}
use arkiv_community_lb.Provider.Events.{Event, apply}
use arkiv_community_lb.Pool.Defs.{
  Pool, modify, next_eligible, record_no_healthy_provider, record_timed_out,
  record_no_provider_answered,
}

-- What the client is answered: a provider's own answer, an envelope of the load balancer, a line
-- of text, or axum's answer to a body that it could not read.
pub data Reply : Type 0 where
  relayed : (status : ℕ) → List ℕ → Reply
  envelope : (status : ℕ) → Json → Reply
  plain : (status : ℕ) → String → Reply
  rejection : (status : ℕ) → Reply

-- The body as axum buffered it, or the status of its rejection.
pub data Received : Type 0 where
  buffered : List ℕ → Received
  rejected : (status : ℕ) → Received

pub data Checked : Type 0 where
  accepted : List ℕ → Checked
  refused : Reply → Checked

-- config.rs `Proxy`, the fields that the forward reads; times in nanoseconds.
pub record Settings : Type 0 where
  pub attempt_timeout : ℕ
  pub request_timeout : ℕ
  pub max_retries : ℕ
  pub max_response_size : ℕ
  pub flip_after : ℕ

-- One turn of the retry loop: what other selections add to the cursor, the clock where the time
-- left is taken, how the provider's endpoint treats the request, what other tasks do to the
-- entries while the attempt waits, and the clock when the answer is recorded.
pub record Turn : Type 0 where
  pub others : List ℕ
  pub clock : ℕ
  pub attempt_started : ℕ
  pub send : Provider → List ℕ → ℕ → Sent
  pub meanwhile : List (ℕ × Event)
  pub answered_at : ℕ

-- How a turn ends: nobody to ask, no time left, a reply, or the next turn.
pub data TurnEnd : Type 0 where
  unavailable expired retry : Pool → TurnEnd
  replied : Reply → Pool → TurnEnd

unfoldable pub disturb : List (ℕ × Event) → Pool → Pool
disturb [] s = s
disturb ((h, e) ∷ es) s = disturb es (modify h (λ p. (apply e p).0) s)

-- The provider's entry after an attempt that failed.
unfoldable pub after_no_answer : Settings → Provider → Provider
after_no_answer cfg p = record_transport_failure (record_health false cfg.flip_after traffic p).0

unfoldable pub after_time_out : Settings → ℕ → Provider → Provider
after_time_out cfg attempt_started p = record_transport_failure (
    if not (answered_since attempt_started p)
    then (record_health false cfg.flip_after traffic p).0
    else p)

module _ (parse_json : List ℕ → Option Json) where
  -- `error`; the message is given with its `lb: ` prefix.
  unfoldable pub error : ℕ → ℤ → String → List ℕ → Reply
  unfolding extract_id error_response
  error status code message body =
      envelope status (error_response code message (extract_id parse_json body))

  unfoldable pub check_request : Received → Checked
  unfolding error
  check_request (rejected status) =
      if status == 413
      then refused (error 413 request_too_large "lb: request too large" [])
      else refused (rejection status)
  check_request (buffered body) =
      if not (looks_like_json body)
      then refused (
          plain 400
            "Request body is not a JSON-RPC request: expected a JSON object or a batch array.\n")
      else elim (denied body) [
        | some name ↦
            refused (error 200 method_denied (concat "lb: method not supported: " name) body)
        | none ↦ accepted body
      ]

  -- What follows the loop, at `clock`.
  unfoldable pub give_up : List ℕ → (deadline clock : ℕ) → Pool → Reply × Pool
  give_up body deadline clock s =
      if leb deadline clock
      then (error 504 request_timed_out "lb: request timed out" body, record_timed_out s)
      else (
        error 503 no_healthy_provider "lb: no provider answered" body,
        record_no_provider_answered s,
      )

  -- What an attempt at the entry `h` leads to.
  unfoldable pub conclude : Settings → List ℕ → Turn → ℕ → Pool → Outcome → TurnEnd
  conclude cfg body t h s (answer status bytes) =
      replied (relayed status bytes) (modify h (record_served t.answered_at) s)
  conclude cfg body t h s too_large =
      replied (error 502 response_too_large "lb: response too large" body) s
  conclude cfg body t h s no_answer = retry (modify h (after_no_answer cfg) s)
  conclude cfg body t h s timed_out = retry (modify h (after_time_out cfg t.attempt_started) s)

  -- One turn with the entry `h` selected: the time left, the attempt, and what follows it.
  unfoldable pub try_provider : Settings → List ℕ → (deadline : ℕ) → Turn → ℕ → Pool → TurnEnd
  try_provider cfg body deadline t h s =
      let remaining = deadline - t.clock in
      let sent = t.send (s.entry h) body (min remaining cfg.attempt_timeout) in
      if remaining == 0
      then expired s
      else conclude cfg body t h (disturb t.meanwhile s)
          (attempt parse_json cfg.max_response_size sent)

  -- The body of the loop: the selection and the attempt.
  unfoldable pub take_turn : Settings → List ℕ → (deadline : ℕ) → Turn → Pool → TurnEnd
  unfolding try_provider
  take_turn cfg body deadline t s =
      let (picked, s1) = next_eligible t.others s in
      elim picked [ none ↦ unavailable s1 | some h ↦ try_provider cfg body deadline t h s1 ]

  -- What the end of a turn means for the loop, `again` being the turns that are left; with the
  -- reply, how many attempts were made.
  unfoldable pub after_turn :
      List ℕ → (deadline ending made : ℕ) → (Pool → ℕ × Reply × Pool) → TurnEnd → ℕ × Reply × Pool
  after_turn body deadline ending made again (unavailable s) = (
    made,
    error 503 no_healthy_provider "lb: no healthy provider" body,
    record_no_healthy_provider s,
  )
  after_turn body deadline ending made again (expired s) =
      let (reply, t) = give_up body deadline ending s in (made, reply, t)
  after_turn body deadline ending made again (replied reply s) = (suc made, reply, s)
  after_turn body deadline ending made again (retry s) = again s

  -- The loop over the attempts, `turn` giving the input of each and `ending` the clock after it.
  unfoldable pub attempts :
      Settings
      → List ℕ
      → (deadline : ℕ) → (ℕ → Turn)
      → (ending : ℕ) → ℕ
      → ℕ
      → Pool
      → ℕ × Reply × Pool
  unfolding after_turn
  attempts cfg body deadline turn ending zero made s =
      let (reply, t) = give_up body deadline ending s in (made, reply, t)
  attempts cfg body deadline turn ending (suc n) made s =
      after_turn body deadline ending made (attempts cfg body deadline turn ending n (suc made))
        (take_turn cfg body deadline (turn made) s)

  -- `forward_with_failover`, started at the instant `started`.
  unfoldable pub forward_with_failover :
      Settings → List ℕ → (started : ℕ) → (ℕ → Turn) → (ending : ℕ) → Pool → ℕ × Reply × Pool
  unfolding attempts
  forward_with_failover cfg body started turn ending s =
      attempts cfg body (started + cfg.request_timeout) turn ending
        ((1 + cfg.max_retries) % u32_mod) 0 s

  -- `handle`
  unfoldable pub handle :
      Settings → Received → (started : ℕ) → (ℕ → Turn) → (ending : ℕ) → Pool → Reply × Pool
  unfolding check_request forward_with_failover
  handle cfg received started turn ending s = elim (check_request received) [
    | refused reply ↦ (reply, s)
    | accepted body ↦
        let (_, reply, t) = forward_with_failover cfg body started turn ending s in (reply, t)
  ]
