-- ===== src/Monitor/Visits.antt =====
-- monitor.rs: what one visit of a provider that may be probed records.
use arkiv_community_lb.Base.{
  min, ◌-◌, ℕ, ◌+◌, ◌%◌, ◌^◌, ◌≤◌, ◌≡◌, refl, sym, ap, subst, inl, inr, Bool, true, false, not,
  Option, none, some, arith, Bool-cases, Option-cases, leb, u64_max,
}
use arkiv_community_lb.Provider.Defs.{
  Provider, HealthSignal, step_streak, probe, lag, record_health, record_unanswered_probe,
  record_answered_probe, record_answer, record_probe_duration, record_height, record_health_source,
  set_eligibility_and_log,
}
use arkiv_community_lb.Provider.Events.{record_health_cases}
use arkiv_community_lb.Provider.Streak.{record_health-streak}
use arkiv_community_lb.Monitor.{
  Config, Replies, chain_cleared, is_behind, run_probe, reschedule_unanswered, probe_delay, visit,
}

-- Whether an answer to a probe is a healthy one, over numbers without bounds.
abbrev pub is_healthy_answer : Config → Option ℕ → Option ℕ → Bool
is_healthy_answer cfg reference none = false
is_healthy_answer cfg none (some height) = true
is_healthy_answer cfg (some reference) (some height) =
    leb reference (height + cfg.lag_tolerance_blocks)

-- The reference's height, if known, is a u64.
abbrev pub Fits : Option ℕ → Type 0
Fits none = Unit
Fits (some r) = r ≤ u64_max

is_behind_lem :
    (cfg : Config) (height : ℕ) (reference : Option ℕ)
    → Fits reference
    → is_behind cfg height reference ≡ not (is_healthy_answer cfg reference (some height))
is_behind_lem cfg height none f = refl
is_behind_lem cfg height (some r) f = ground arith

-- The fields that a health result leaves alone and that a visit is judged by.
abbrev Same : Provider → Provider → Type 0
Same p q =
    (q.unanswered_probe_streak ≡ p.unanswered_probe_streak)
    × (q.next_probe ≡ p.next_probe)
    × (q.height ≡ p.height)

record_health-Same :
    (b : Bool) (n : ℕ) (s : HealthSignal) (p : Provider) → Same p (record_health b n s p).0
unfolding set_eligibility_and_log record_health_source
record_health-Same b n s p =
    record_health_cases (λ r. Same p r.0) b n s p (λ _. (refl, refl, refl))
      (λ _ _. (refl, refl, refl)) (λ _ _. (refl, refl, refl))

-- What a probe leaves in the entry, by what the provider answered.
abbrev pub Recorded : Config → Option ℕ → ℕ → Option ℕ → Provider → Provider → Type 0
Recorded cfg reference now none p q =
    let depth = (p.unanswered_probe_streak + 1) % 2 ^ 32 in
    (q.health_streak ≡ step_streak false p.health_streak)
    × (q.unanswered_probe_streak ≡ depth)
    × (q.next_probe ≡ now + probe_delay cfg depth)
    × (q.height ≡ p.height)
Recorded cfg reference now (some height) p q =
    (q.health_streak ≡ step_streak (is_healthy_answer cfg reference (some height)) p.health_streak)
    × (q.unanswered_probe_streak ≡ 0)
    × (q.next_probe ≡ p.next_probe)
    × (q.height ≡ min height (u64_max - 1))

probe_none :
    (cfg : Config) (now : ℕ) (reference : Option ℕ) (replies : Replies) (p : Provider)
    → replies.block_number ≡ none
    → ((run_probe cfg reference replies p).0 ≡ false)
      × Recorded cfg reference now none p
          (reschedule_unanswered cfg now (run_probe cfg reference replies p).1)
unfolding run_probe reschedule_unanswered record_unanswered_probe record_probe_duration
probe_none cfg now reference replies p e =
    let q = record_unanswered_probe (record_probe_duration replies.took p) in
    let streak = record_health-streak false cfg.flip_after probe q in
    let (depth, next, height) = record_health-Same false cfg.flip_after probe q in
    rw (e, run_probe) (refl, (streak, depth, ap (λ d. now + probe_delay cfg d) depth, height))

probe_some :
    (cfg : Config) (now height : ℕ) (reference : Option ℕ) (replies : Replies) (p : Provider)
    → Fits reference
    → replies.block_number ≡ some height
    → ((run_probe cfg reference replies p).0 ≡ true)
      × Recorded cfg reference now (some height) p (run_probe cfg reference replies p).1
unfolding run_probe record_answered_probe record_answer record_probe_duration record_height
probe_some cfg now height reference replies p f e =
    let q =
      record_height height
        (record_answered_probe replies.done_at (record_probe_duration replies.took p)) in
    let same = is_behind_lem cfg height reference f in
    elim (Bool-cases (is_healthy_answer cfg reference (some height))) [
      | inl good ↦
          let (depth, next, h) = record_health-Same true cfg.flip_after probe q in
          rw (e, run_probe, same, good)
            (refl, (record_health-streak true cfg.flip_after probe q, depth, next, h))
      | inr bad ↦
          let (depth, next, h) = record_health-Same false cfg.flip_after lag q in
          rw (e, run_probe, same, bad)
            (refl, (record_health-streak false cfg.flip_after lag q, depth, next, h))
    ]

-- A visit to a provider whose probe is due and that the chain check clears records one health
-- result: a success exactly if the provider answered a height that, with the tolerance, reaches the
-- reference's, or answered while no reference height is known. An answer ends the run of
-- unanswered probes and stores the height; without one the run grows by one and the next probe
-- moves out by the backoff of its depth. The reference's height is a u64.
pub visit-Recorded :
    (cfg : Config) (now : ℕ) (reference : Option ℕ) (chain_round : Bool) (replies : Replies)
    (p : Provider)
    → Fits reference
    → p.next_probe ≤ now
    → (chain_cleared cfg chain_round replies p).0 ≡ true
    → Recorded cfg reference now replies.block_number
        (chain_cleared cfg chain_round replies p).1
        (visit cfg now reference chain_round replies p)
unfolding visit
visit-Recorded cfg now reference chain_round replies p f due cleared =
    let (_, p1) = chain_cleared cfg chain_round replies p in
    let on_time : leb p.next_probe now ≡ true = ground arith in
    elim (Option-cases replies.block_number) [
      | inl e ↦
          let (silent, recorded) = probe_none cfg now reference replies p1 e in
          rw (on_time, cleared, silent)
            (subst
              (λ o.
                Recorded cfg reference now o p1
                  (reschedule_unanswered cfg now (run_probe cfg reference replies p1).1))
              (sym e) recorded)
      | inr (height, e) ↦
          let (answered, recorded) = probe_some cfg now height reference replies p1 f e in
          rw (on_time, cleared, answered)
            (subst (λ o. Recorded cfg reference now o p1 (run_probe cfg reference replies p1).1)
              (sym e) recorded)
    ]
