-- ===== src/Provider/Counters.antt =====
-- pool.rs: what the billing count and the stats count of an entry hold after any updates.
use arkiv_community_lb.Base.{
  ℕ, suc, ◌+◌, ◌<◌, ◌≡◌, refl, ◌∙◌, Bool, true, false, List, [], ◌∷◌, all, all-cons, arith, u64_mod,
}
use arkiv_community_lb.Provider.Defs.{
  Provider, HealthSignal, matching, stale, divergence, unknown, record_health_source,
  set_eligibility_and_log, record_health, subtract_served,
}
use arkiv_community_lb.Provider.Events.{
  Event, health_result, judged, probe_asked, served_at, closed, seeded, apply, run,
  record_health_cases,
}

-- The requests that were served, as the history has them.
abbrev pub served_in : List Event → ℕ
served_in [] = 0
served_in (served_at _ ∷ es) = suc (served_in es)
served_in (_ ∷ es) = served_in es

-- An update that neither closes nor seeds a period.
abbrev pub within_period : Event → Bool
within_period (closed _) = false
within_period (seeded _) = false
within_period _ = true

abbrev pub gain : Event → ℕ
gain (served_at _) = 1
gain _ = 0

-- The two counts of an entry, and what one update does to them.
abbrev pub Counts : Provider → ℕ → ℕ → Type 0
Counts p a b = (p.served ≡ a) × (p.served_total ≡ b)

record_health-Counts :
    (b : Bool) (n : ℕ) (s : HealthSignal) (p : Provider)
    → Counts (record_health b n s p).0 p.served p.served_total
unfolding set_eligibility_and_log record_health_source
record_health-Counts b n s p =
    record_health_cases (λ r. Counts r.0 p.served p.served_total) b n s p (λ _. (refl, refl))
      (λ _ _. (refl, refl)) (λ _ _. (refl, refl))

apply-Counts :
    (e : Event) (p : Provider)
    → within_period e ≡ true
    → p.served + gain e < u64_mod
    → p.served_total + gain e < u64_mod
    → Counts (apply e p).0 (p.served + gain e) (p.served_total + gain e)
unfolding apply
apply-Counts (health_result b n s) p w h k =
    let (x, y) = record_health-Counts b n s p in (x ∙ omega arith, y ∙ omega arith)
apply-Counts (judged matching n) p w h k = (omega arith, omega arith)
apply-Counts (judged divergence n) p w h k = (omega arith, omega arith)
apply-Counts (judged stale n) p w h k = (omega arith, omega arith)
apply-Counts (judged unknown n) p w h k = (omega arith, omega arith)
apply-Counts (closed n) p w h k = cc
apply-Counts (seeded n) p w h k = cc
apply-Counts (probe_asked now) p w h k = (omega arith, omega arith)
apply-Counts e p w h k = (omega arith, omega arith)

served_in-cons : (e : Event) (es : List Event) → served_in (e ∷ es) ≡ gain e + served_in es
served_in-cons (served_at _) es = omega arith
served_in-cons (probe_asked _) es = omega arith
served_in-cons _ es = omega arith

-- Neither count wraps or loses a request: over updates that neither close nor seed a period, both
-- grow by the number of requests served, if that fits the u64s.
pub run-Counts :
    (es : List Event) (p : Provider)
    → all within_period es ≡ true
    → p.served + served_in es < u64_mod
    → p.served_total + served_in es < u64_mod
    → Counts (run es p).0 (p.served + served_in es) (p.served_total + served_in es)
unfolding run
run-Counts [] p w h k = (omega arith, omega arith)
run-Counts (e ∷ es) p w h k =
    let split = served_in-cons e es in
    let (ws, wss) = all-cons within_period e es w in
    let (a, b) = apply-Counts e p ws (omega arith) (omega arith) in
    let (x, y) = run-Counts es (apply e p).0 wss (omega arith) (omega arith) in
    (omega arith, omega arith)

-- A closing write carries the count as it was taken. Whatever is served while the write is in
-- flight, over updates that neither close nor seed a period, is left in the entry when the count
-- is subtracted: it belongs to the next period. The total keeps everything. Both counts must fit
-- the u64s.
pub closed-run :
    (es : List Event) (p : Provider)
    → all within_period es ≡ true
    → p.served + served_in es < u64_mod
    → p.served_total + served_in es < u64_mod
    → Counts (subtract_served p.served (run es p).0) (served_in es) (p.served_total + served_in es)
unfolding subtract_served
closed-run es p w h k = let (a, b) = run-Counts es p w h k in (omega arith, b)
