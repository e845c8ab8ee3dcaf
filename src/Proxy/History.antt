-- ===== src/Proxy/History.antt =====
-- proxy.rs: what a request does to the entries of the pool, as a sequence of the entry's updates.
use arkiv_community_lb.Base.{
  ℕ, zero, suc, ◌+◌, ◌-◌, ◌%◌, u32_mod, min, leb, ◌≡◌, refl, ◌∙◌, sym, ap, subst, inl, inr, Bool,
  true, false, not, Option, List, [], ◌∷◌, ◌++◌, all, all-cons, any, arith, Bool-cases,
  Option-cases, ◌==◌,
}
use arkiv_community_lb.Jsonrpc.{Json}
use arkiv_community_lb.Provider.Defs.{Provider, health, traffic, record_served, answered_since}
use arkiv_community_lb.Provider.Gates.{GatesByte, is_open}
use arkiv_community_lb.Provider.Events.{
  Event, health_result, served_at, transport_failed, apply, run,
}
use arkiv_community_lb.Provider.History.{is_success, run_closed}
use arkiv_community_lb.Pool.Defs.{
  Pool, modify, next_eligible, record_no_healthy_provider, record_timed_out,
  record_no_provider_answered,
}
use arkiv_community_lb.Pool.Members.{next_eligible-keeps}
use arkiv_community_lb.Forwarder.{Outcome, answer, no_answer, timed_out, too_large, attempt}
use arkiv_community_lb.Proxy.{
  Settings, Turn, Reply, TurnEnd, unavailable, expired, retry, replied, disturb, after_no_answer,
  after_time_out, give_up, conclude, try_provider, take_turn, after_turn, attempts,
  forward_with_failover,
}

-- The second entry is the first one after updates that all pass the test.
abbrev pub Grew : (Event → Bool) → Provider → Provider → Type 0
Grew ok p q = (es : List Event) × (q ≡ (run es p).0) × (all ok es ≡ true)

-- Every entry of the second pool is that of the first one after such updates.
abbrev pub Grows : (Event → Bool) → Pool → Pool → Type 0
Grows ok s t = (k : ℕ) → Grew ok (s.entry k) (t.entry k)

run-append : (es fs : List Event) (p : Provider) → (run (es ++ fs) p).0 ≡ (run fs (run es p).0).0
unfolding run
run-append [] fs p = refl
run-append (e ∷ es) fs p = run-append es fs (apply e p).0

all-append :
    (ok : Event → Bool) (es fs : List Event)
    → all ok es ≡ true
    → all ok fs ≡ true
    → all ok (es ++ fs) ≡ true
all-append ok [] fs h k = k
all-append ok (e ∷ es) fs h k = ground (arith, all-append ok es fs)

module _ (ok : Event → Bool) where
  Grew-refl : (p : Provider) → Grew ok p p
  unfolding run
  Grew-refl p = ([], refl, refl)

  Grew-trans : (p q r : Provider) → Grew ok p q → Grew ok q r → Grew ok p r
  Grew-trans p q r (es, e, a) (fs, f, b) =
      (es ++ fs, f ∙ ap (λ x. (run fs x).0) e ∙ sym (run-append es fs p), all-append ok es fs a b)

  Grew-apply : (e : Event) (p : Provider) → ok e ≡ true → Grew ok p (apply e p).0
  unfolding run
  Grew-apply e p h = (e ∷ [], refl, ground arith)

  Grows-trans : (s t u : Pool) → Grows ok s t → Grows ok t u → Grows ok s u
  Grows-trans s t u g h k = Grew-trans (s.entry k) (t.entry k) (u.entry k) (g k) (h k)

  modify-Grows :
      (h : ℕ) (f : Provider → Provider) (s : Pool)
      → ((p : Provider) → Grew ok p (f p))
      → Grows ok s (modify h f s)
  unfolding modify
  modify-Grows h f s g k = elim (Bool-cases (k == h)) [
    | inl e ↦
        let same : k ≡ h = ground arith in
        rw e (subst (λ j. Grew ok (s.entry j) (f (s.entry h))) (sym same) (g (s.entry h)))
    | inr e ↦ rw e (Grew-refl (s.entry k))
  ]

  disturb-Grows :
      (es : List (ℕ × Event)) (s : Pool) → all (λ e. ok e.1) es ≡ true → Grows ok s (disturb es s)
  unfolding disturb
  disturb-Grows [] s h = λ k. Grew-refl (s.entry k)
  disturb-Grows ((j, e) ∷ es) s h =
      let (first, rest) = all-cons (λ (x : ℕ × Event). ok x.1) (j, e) es h in
      let s' = modify j (λ p. (apply e p).0) s in
      Grows-trans s s' (disturb es s')
        (modify-Grows j (λ p. (apply e p).0) s (λ p. Grew-apply e p first))
        (disturb-Grows es s' rest)

  next_eligible-Grows : (others : List ℕ) (s : Pool) → Grows ok s (next_eligible others s).1
  next_eligible-Grows others s k =
      let kept = next_eligible-keeps others s in
      subst (λ f. Grew ok (s.entry k) (f k)) (sym kept.2) (Grew-refl (s.entry k))

abbrev end_pool : TurnEnd → Pool
end_pool (unavailable s) = s
end_pool (expired s) = s
end_pool (retry s) = s
end_pool (replied _ s) = s

-- The updates that a request may make, and those that other tasks make meanwhile.
pub record Allows (ok : Event → Bool) (cfg : Settings) (turn : ℕ → Turn) : Type 0 where
  pub failure : ok (health_result false cfg.flip_after traffic) ≡ true
  pub unanswered : ok transport_failed ≡ true
  pub serving : (now : ℕ) → ok (served_at now) ≡ true
  pub others : (i : ℕ) → all (λ e. ok e.1) (turn i).meanwhile ≡ true

module _ (parse_json : List ℕ → Option Json) (ok : Event → Bool) (cfg : Settings) (turn : ℕ → Turn)
    (allows : Allows ok cfg turn) where
  after_no_answer-Grew : (p : Provider) → Grew ok p (after_no_answer cfg p)
  unfolding run apply after_no_answer
  after_no_answer-Grew p = (
    health_result false cfg.flip_after traffic ∷ transport_failed ∷ [],
    refl,
    rw (allows.failure, allows.unanswered),
  )

  after_time_out-Grew : (since : ℕ) (p : Provider) → Grew ok p (after_time_out cfg since p)
  unfolding run apply after_time_out after_no_answer
  after_time_out-Grew since p = elim (Bool-cases (answered_since since p)) [
    | inl e ↦ rw e (transport_failed ∷ [], refl, rw allows.unanswered)
    | inr e ↦ rw e (after_no_answer-Grew p)
  ]

  record_served-Grew : (now : ℕ) (p : Provider) → Grew ok p (record_served now p)
  unfolding run apply
  record_served-Grew now p = (served_at now ∷ [], refl, rw (allows.serving now))

  conclude-Grows :
      (body : List ℕ) (t : Turn) (h : ℕ) (s : Pool) (o : Outcome)
      → Grows ok s (end_pool (conclude parse_json cfg body t h s o))
  unfolding conclude
  conclude-Grows body t h s (answer status bytes) =
      modify-Grows ok h (record_served t.answered_at) s (record_served-Grew t.answered_at)
  conclude-Grows body t h s too_large = λ k. Grew-refl ok (s.entry k)
  conclude-Grows body t h s no_answer =
      modify-Grows ok h (after_no_answer cfg) s after_no_answer-Grew
  conclude-Grows body t h s timed_out =
      modify-Grows ok h (after_time_out cfg t.attempt_started) s
        (after_time_out-Grew t.attempt_started)

  try_provider-Grows :
      (body : List ℕ) (deadline i h : ℕ) (s : Pool)
      → Grows ok s (end_pool (try_provider parse_json cfg body deadline (turn i) h s))
  unfolding try_provider
  try_provider-Grows body deadline i h s = elim (Bool-cases (deadline - (turn i).clock == 0)) [
    | inl e ↦ rw e (λ k. Grew-refl ok (s.entry k))
    | inr e ↦
        let t = turn i in
        let s2 = disturb t.meanwhile s in
        let sent = t.send (s.entry h) body (min (deadline - t.clock) cfg.attempt_timeout) in
        let o = attempt parse_json cfg.max_response_size sent in
        rw e (
          Grows-trans ok s s2 (end_pool (conclude parse_json cfg body t h s2 o))
            (disturb-Grows ok t.meanwhile s (allows.others i)) (conclude-Grows body t h s2 o))
  ]

  take_turn-Grows :
      (body : List ℕ) (deadline i : ℕ) (s : Pool)
      → Grows ok s (end_pool (take_turn parse_json cfg body deadline (turn i) s))
  unfolding take_turn
  take_turn-Grows body deadline i s =
      let s1 = (next_eligible (turn i).others s).1 in
      let selected = next_eligible-Grows ok (turn i).others s in
      elim (Option-cases (next_eligible (turn i).others s).0) [
        | inl e ↦ rw (e, take_turn) selected
        | inr (h, e) ↦
            rw (e, take_turn)
              (Grows-trans ok s s1
                (end_pool (try_provider parse_json cfg body deadline (turn i) h s1)) selected
                (try_provider-Grows body deadline i h s1))
      ]

  give_up-Grows :
      (body : List ℕ) (deadline clock : ℕ) (s : Pool)
      → Grows ok s (give_up parse_json body deadline clock s).1
  unfolding give_up record_timed_out record_no_provider_answered
  give_up-Grows body deadline clock s k = elim (Bool-cases (leb deadline clock)) [
    | inl e ↦ rw e (Grew-refl ok (s.entry k))
    | inr e ↦ rw e (Grew-refl ok (s.entry k))
  ]

  after_turn-Grows :
      (body : List ℕ) (deadline ending made : ℕ) (again : Pool → ℕ × Reply × Pool) (s : Pool)
      → ((t : Pool) → Grows ok t (again t).2)
      → (e : TurnEnd) → Grows ok s (end_pool e)
      → Grows ok s (after_turn parse_json body deadline ending made again e).2
  unfolding after_turn record_no_healthy_provider
  after_turn-Grows body deadline ending made again s g (unavailable t) h = h
  after_turn-Grows body deadline ending made again s g (expired t) h =
      Grows-trans ok s t (give_up parse_json body deadline ending t).1 h
        (give_up-Grows body deadline ending t)
  after_turn-Grows body deadline ending made again s g (replied reply t) h = h
  after_turn-Grows body deadline ending made again s g (retry t) h =
      Grows-trans ok s t (again t).2 h (g t)

  attempts-Grows :
      (body : List ℕ) (deadline ending n made : ℕ) (s : Pool)
      → Grows ok s (attempts parse_json cfg body deadline turn ending n made s).2
  unfolding attempts
  attempts-Grows body deadline ending zero made s = give_up-Grows body deadline ending s
  attempts-Grows body deadline ending (suc n) made s =
      after_turn-Grows body deadline ending made
        (attempts parse_json cfg body deadline turn ending n (suc made)) s
        (attempts-Grows body deadline ending n (suc made))
        (take_turn parse_json cfg body deadline (turn made) s)
        (take_turn-Grows body deadline made s)

  -- A request changes the entries only as the two records of failed traffic and the one of a served
  -- request do, besides what other tasks do meanwhile: each entry after the request is what it was
  -- before, after a sequence of such updates. The test `ok` is any that passes these updates.
  pub forward-Grows :
      (body : List ℕ) (started ending : ℕ) (s : Pool)
      → Grows ok s (forward_with_failover parse_json cfg body started turn ending s).2
  unfolding forward_with_failover
  forward-Grows body started ending s =
      attempts-Grows body (started + cfg.request_timeout) ending ((1 + cfg.max_retries) % u32_mod) 0
        s

abbrev pub no_success : Event → Bool
no_success e = not (is_success e)

no_success-any : (es : List Event) → all no_success es ≡ true → any is_success es ≡ false
no_success-any [] h = refl
no_success-any (e ∷ es) h = ground (arith, no_success-any es)

-- Traffic brings nobody in: a provider whose health gate is closed when a request arrives has it
-- closed when the request ends, whatever the providers answer, if meanwhile no other task records
-- a successful health result. At first the entry's eligibility byte holds only the two gates.
pub forward_admits_nobody :
    (parse_json : List ℕ → Option Json) (cfg : Settings) (turn : ℕ → Turn) (body : List ℕ)
    (started ending : ℕ) (s : Pool) (k : ℕ)
    → ((i : ℕ) → all (λ e. no_success e.1) (turn i).meanwhile ≡ true)
    → GatesByte (s.entry k)
    → is_open health (s.entry k) ≡ false
    → is_open health ((forward_with_failover parse_json cfg body started turn ending s).2.entry k)
      ≡ false
forward_admits_nobody parse_json cfg turn body started ending s k quiet byte shut =
    let allows : Allows no_success cfg turn = record {
      failure = refl;
      unanswered = refl;
      serving = λ now. refl;
      others = quiet;
    } in
    let (es, e, a) = forward-Grows parse_json no_success cfg turn allows body started ending s k in
    rw e (run_closed es (s.entry k) byte (no_success-any es a) shut)
