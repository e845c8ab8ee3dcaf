-- ===== src/Provider/History.antt =====
-- pool.rs: what any sequence of updates on one entry leads to, gate by gate, and what it logs.
use arkiv_community_lb.Base.{
  ℕ, ◌≡◌, refl, ◌∙◌, Bool, true, false, not, Option, none, some, List, [], ◌∷◌, inl, inr, any,
  arith, Bool-cases,
}
use arkiv_community_lb.Base.Int.{pos}
use arkiv_community_lb.Provider.Defs.{
  Provider, health, integrity, HealthSignal, Flip, Verdict, matching, stale, divergence, unknown,
  eligible, record_health, record_health_source, quarantine, record_integrity, by_integrity,
  step_streak, encode_verdict,
}
use arkiv_community_lb.Provider.Gates.{GatesByte, is_open}
use arkiv_community_lb.Provider.Events.{
  Event, health_result, quarantined, judged, probe_asked, apply, run, cons_flip, Follows,
  apply-Effect, set_eligibility_and_log-Logs, record_health_cases,
}

-- Flips that take the answer from the first value to the last, each one a change.
abbrev pub Alternates : Bool → List Flip → Bool → Type 0
Alternates before [] after = after ≡ before
Alternates before (f ∷ fs) after =
    (f.now_eligible ≡ not before) × Alternates f.now_eligible fs after

prepend :
    (a b c : Bool) (o : Option Flip) (fs : List Flip)
    → Follows a o b
    → Alternates b fs c
    → Alternates a (cons_flip o fs) c
prepend a b c none fs h k = rw (← h) k
prepend a b c (some f) fs h k = (h.1 ∙ h.0, rw h.1 k)

-- Over any sequence of updates on an entry whose byte holds only the gates, the byte keeps
-- holding only the gates, and the logged flips lead from what `eligible` answered before to what
-- it answers after, each a change of the answer: no flip goes unlogged and none is logged twice.
pub run-Alternates :
    (es : List Event) (p : Provider)
    → GatesByte p
    → GatesByte (run es p).0 × Alternates (eligible p) (run es p).1 (eligible (run es p).0)
unfolding run
run-Alternates [] p h = (h, refl)
run-Alternates (e ∷ es) p h =
    let first = apply-Effect e p h in
    let rest = run-Alternates es (apply e p).0 first.kept in
    (rest.0, prepend _ _ _ (apply e p).1 _ first.follows rest.1)

-- The integrity gate as the verdicts alone decide it.
abbrev pub ruling : Event → Bool → Bool
ruling (judged matching _) b = true
ruling (judged divergence _) b = false
ruling _ b = b

abbrev pub last_ruling : List Event → Bool → Bool
last_ruling [] b = b
last_ruling (e ∷ es) b = last_ruling es (ruling e b)

-- The entries on which `quarantine` and `record_integrity` set a gate.
abbrev reset : HealthSignal → Provider → Provider
reset s p = record (record_health_source s p) { health_streak = pos 0 }

abbrev noted : Verdict → ℕ → Provider → Provider
noted v n p = record p { verdict = encode_verdict v; verdict_height = n }

abbrev ticked : Bool → HealthSignal → Provider → Provider
ticked b s p = record (record_health_source s p) { health_streak = step_streak b p.health_streak }

health_result-integrity :
    (success : Bool) (n : ℕ) (s : HealthSignal) (p : Provider)
    → GatesByte p
    → is_open integrity (record_health success n s p).0 ≡ is_open integrity p
unfolding is_open record_health_source
health_result-integrity success n s p h =
    record_health_cases (λ r. is_open integrity r.0 ≡ is_open integrity p) success n s p
      (λ _. (set_eligibility_and_log-Logs health true s _ h).that)
      (λ _ _. (set_eligibility_and_log-Logs health false s _ h).that) (λ _ _. refl)

apply-ruling :
    (e : Event) (p : Provider)
    → GatesByte p
    → is_open integrity (apply e p).0 ≡ ruling e (is_open integrity p)
unfolding apply is_open record_integrity quarantine
apply-ruling (health_result success n s) p h = health_result-integrity success n s p h
apply-ruling (quarantined s) p h = (set_eligibility_and_log-Logs health false s (reset s p) h).that
apply-ruling (judged matching n) p h =
    (set_eligibility_and_log-Logs integrity true by_integrity (noted matching n p) h).this
apply-ruling (judged divergence n) p h =
    (set_eligibility_and_log-Logs integrity false by_integrity (noted divergence n p) h).this
apply-ruling (judged stale n) p h = refl
apply-ruling (judged unknown n) p h = refl
apply-ruling (probe_asked now) p h = refl
apply-ruling _ p h = refl

-- After any sequence of updates the integrity gate is what the last match or divergence said, and
-- what it was before if there was none: probes, traffic and quarantines never move it. At first
-- the entry's eligibility byte holds only the two gates.
pub run-last_ruling :
    (es : List Event) (p : Provider)
    → GatesByte p
    → is_open integrity (run es p).0 ≡ last_ruling es (is_open integrity p)
unfolding run
run-last_ruling [] p h = refl
run-last_ruling (e ∷ es) p h =
    rw (← apply-ruling e p h) (run-last_ruling es (apply e p).0 (apply-Effect e p h).kept)

abbrev pub is_success : Event → Bool
is_success (health_result success _ _) = success
is_success _ = false

pub apply-closed :
    (e : Event) (p : Provider)
    → GatesByte p
    → is_success e ≡ false
    → is_open health p ≡ false
    → is_open health (apply e p).0 ≡ false
unfolding apply is_open record_integrity quarantine record_health_source
apply-closed (health_result true n s) p h e c = cc
apply-closed (health_result false n s) p h e c =
    record_health_cases (λ r. is_open health r.0 ≡ false) false n s p (λ up. ground arith)
      (λ _ _. (set_eligibility_and_log-Logs health false s (ticked false s p) h).this) (λ _ _. c)
apply-closed (quarantined s) p h e c =
    (set_eligibility_and_log-Logs health false s (reset s p) h).this
apply-closed (judged matching n) p h e c =
    (set_eligibility_and_log-Logs integrity true by_integrity (noted matching n p) h).that ∙ c
apply-closed (judged divergence n) p h e c =
    (set_eligibility_and_log-Logs integrity false by_integrity (noted divergence n p) h).that ∙ c
apply-closed (judged stale n) p h e c = c
apply-closed (judged unknown n) p h e c = c
apply-closed (probe_asked now) p h e c = c
apply-closed _ p h e c = c

-- A closed health gate stays closed over any sequence of updates without a successful health
-- result: failures, quarantines, verdicts and served requests bring no provider in. At first the
-- entry's eligibility byte holds only the two gates.
pub run_closed :
    (es : List Event) (p : Provider)
    → GatesByte p
    → any is_success es ≡ false
    → is_open health p ≡ false
    → is_open health (run es p).0 ≡ false
unfolding run
run_closed [] p h e c = c
run_closed (e ∷ es) p h q c = elim (Bool-cases (is_success e)) [
  | inl s ↦ ground arith
  | inr s ↦
      run_closed es (apply e p).0 (apply-Effect e p h).kept (ground arith) (apply-closed e p h s c)
]
