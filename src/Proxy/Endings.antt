-- ===== src/Proxy/Endings.antt =====
-- proxy.rs: why a request ends the way it does, and what is counted for it.
use arkiv_community_lb.Base.{
  ℕ, suc, ◌+◌, ◌-◌, ◌%◌, ◌≤◌, ◌<◌, u32_mod, u64_mod, min, ◌≡◌, ◌⊎◌, true, false, Option, List, any,
}
use arkiv_community_lb.Jsonrpc.{Json, no_healthy_provider, request_timed_out, response_too_large}
use arkiv_community_lb.Provider.Defs.{Provider, eligible}
use arkiv_community_lb.Pool.Defs.{Pool, LbOutcomes, in_rotation}
use arkiv_community_lb.Forwarder.{Outcome, answer, no_answer, timed_out, too_large, attempt}
use arkiv_community_lb.Proxy.{
  Settings, Turn, Reply, relayed, error, TurnEnd, unavailable, expired, retry, replied,
}

module _ (parse_json : List ℕ → Option Json) (cfg : Settings) (body : List ℕ) (deadline : ℕ)
    (turn : ℕ → Turn) (ending limit : ℕ) where
  -- What the attempt of turn `i` came to, at some provider in rotation. There was time left, and the timeout was
  -- the smaller one of it and of an attempt's own.
  abbrev pub Attempted : ℕ → Outcome → Type 0
  Attempted i o =
      let left = deadline - (turn i).clock in
      (p : Provider) × (eligible p ≡ true)
      × (0 < left)
      × (attempt parse_json cfg.max_response_size
            ((turn i).send p body (min left cfg.attempt_timeout))
          ≡ o)

  -- The attempt of turn `i` had no answer, or had none in its time.
  abbrev pub Failed : ℕ → Type 0
  Failed i = Attempted i no_answer ⊎ Attempted i timed_out

  abbrev pub AllFailed : (made : ℕ) → Type 0
  AllFailed made = (i : ℕ) → i < made → Failed i

  -- The ways in which a request that was counted as `o` before may end.
  pub data Ending (o : LbOutcomes) (made : ℕ) (reply : Reply) (t : Pool) : Type 0 where
    by_answer :
        (i status : ℕ) (bytes : List ℕ)
        → AllFailed i
        → Attempted i (answer status bytes)
        → made ≡ suc i
        → reply ≡ relayed status bytes
        → t.lb_outcomes ≡ o
        → Ending o made reply t
    by_size :
        (i : ℕ)
        → AllFailed i
        → Attempted i too_large
        → made ≡ suc i
        → reply ≡ error parse_json 502 response_too_large "lb: response too large" body
        → t.lb_outcomes ≡ o
        → Ending o made reply t
    nobody_eligible :
        AllFailed made
        → any (in_rotation t) t.members ≡ false
        → reply ≡ error parse_json 503 no_healthy_provider "lb: no healthy provider" body
        → t.lb_outcomes ≡ record o { no_healthy_provider = (o.no_healthy_provider + 1) % u64_mod }
        → Ending o made reply t
    out_of_time :
        AllFailed made
        → deadline ≤ ending
        → reply ≡ error parse_json 504 request_timed_out "lb: request timed out" body
        → t.lb_outcomes ≡ record o { timed_out = (o.timed_out + 1) % u64_mod }
        → Ending o made reply t
    nobody_answered :
        AllFailed made
        → (limit ≤ made) ⊎ (deadline ≤ (turn made).clock)
        → ending < deadline
        → reply ≡ error parse_json 503 no_healthy_provider "lb: no provider answered" body
        → t.lb_outcomes ≡ record o { no_provider_answered = (o.no_provider_answered + 1) % u64_mod }
        → Ending o made reply t

  abbrev Ends : Pool → ℕ × Reply × Pool → Type 0
  Ends s (made, reply, t) = Ending s.lb_outcomes made reply t × (made ≤ limit)

  -- What is known where one turn ends.
  abbrev TurnEnds : ℕ → LbOutcomes → TurnEnd → Type 0
  TurnEnds made o (unavailable t) = (any (in_rotation t) t.members ≡ false) × (t.lb_outcomes ≡ o)
  TurnEnds made o (expired t) = (deadline ≤ (turn made).clock) × (t.lb_outcomes ≡ o)
  TurnEnds made o (retry t) = Failed made × (t.lb_outcomes ≡ o)
  TurnEnds made o (replied reply t) =
      ((status : ℕ) × (bytes : List ℕ) × Attempted made (answer status bytes)
        × (reply ≡ relayed status bytes)
        × (t.lb_outcomes ≡ o))
      ⊎ (Attempted made too_large
          × (reply ≡ error parse_json 502 response_too_large "lb: response too large" body)
          × (t.lb_outcomes ≡ o))

abbrev pub max_attempts : Settings → ℕ
max_attempts cfg = (1 + cfg.max_retries) % u32_mod
