-- ===== src/Provider/Streak.antt =====
-- pool.rs: `record_health` over a sequence of results against a description by runs.
use arkiv_community_lb.Base.{
  ℕ, zero, suc, ◌+◌, ◌≤◌, ◌≡◌, refl, ◌∙◌, ap, Bool, true, false, List, [], ◌∷◌, length, arith, leb,
  if◌then◌else◌,
}
use arkiv_community_lb.Base.Int.{ℤ, pos, negsuc, neg, leb_ℤ, i64_max}
use arkiv_community_lb.Provider.Defs.{
  Provider, health, HealthSignal, step_streak, record_health_source, record_health,
  set_eligibility_and_log,
}
use arkiv_community_lb.Provider.Gates.{GatesByte, is_open}
use arkiv_community_lb.Provider.Events.{
  record_health_cases, record_health-Effect, set_eligibility_and_log-Logs,
}

-- How many results at the head of the list, the newest ones, say `b`.
abbrev pub trailing : Bool → List Bool → ℕ
trailing b [] = 0
trailing true (true ∷ rs) = suc (trailing true rs)
trailing true (false ∷ rs) = 0
trailing false (true ∷ rs) = 0
trailing false (false ∷ rs) = suc (trailing false rs)

-- The streak as a signed length of the newest run: failures count below zero.
abbrev pub signed_run : List Bool → ℤ
signed_run [] = pos 0
signed_run (true ∷ rs) = pos (suc (trailing true rs))
signed_run (false ∷ rs) = negsuc (trailing false rs)

-- What the newest run of at least `n` agreeing results said; closed if there was none.
abbrev pub admitted : ℕ → List Bool → Bool
admitted n [] = false
admitted n (r ∷ rs) = if leb n (suc (trailing r rs)) then r else admitted n rs

-- The entry after the results, newest first.
unfoldable pub after_results : ℕ → List (Bool × HealthSignal) → Provider → Provider
after_results n [] p = p
after_results n ((b, s) ∷ rs) p = (record_health b n s (after_results n rs p)).0

abbrev pub said : List (Bool × HealthSignal) → List Bool
said [] = []
said ((b, _) ∷ rs) = b ∷ said rs

trailing-le-length : (b : Bool) (rs : List Bool) → trailing b rs ≤ length rs
trailing-le-length b [] = omega arith
trailing-le-length true (true ∷ rs) = omega (arith, trailing-le-length true rs)
trailing-le-length true (false ∷ rs) = omega arith
trailing-le-length false (true ∷ rs) = omega arith
trailing-le-length false (false ∷ rs) = omega (arith, trailing-le-length false rs)

step-signed_run :
    (b : Bool) (rs : List Bool)
    → length rs + 1 ≤ i64_max
    → step_streak b (signed_run rs) ≡ signed_run (b ∷ rs)
step-signed_run true [] h = refl
step-signed_run false [] h = refl
step-signed_run true (true ∷ rs) h = ap pos (omega (arith, trailing-le-length true rs))
step-signed_run true (false ∷ rs) h = refl
step-signed_run false (true ∷ rs) h = refl
step-signed_run false (false ∷ rs) h = ap negsuc (omega (arith, trailing-le-length false rs))

pub record_health-streak :
    (b : Bool) (n : ℕ) (s : HealthSignal) (p : Provider)
    → (record_health b n s p).0.health_streak ≡ step_streak b p.health_streak
unfolding set_eligibility_and_log record_health_source
record_health-streak b n s p =
    record_health_cases (λ r. r.0.health_streak ≡ step_streak b p.health_streak) b n s p (λ _. refl)
      (λ _ _. refl) (λ _ _. refl)

-- Where the health gate stands after one result.
abbrev pub decided : ℕ → ℤ → Bool → Bool
decided n streak before =
    if leb_ℤ (pos n) streak then true else if leb_ℤ streak (neg n) then false else before

pub record_health-health :
    (b : Bool) (n : ℕ) (s : HealthSignal) (p : Provider)
    → GatesByte p
    → is_open health (record_health b n s p).0
      ≡ decided n (step_streak b p.health_streak) (is_open health p)
unfolding record_health is_open
record_health-health b n s p h =
    let q = record (record_health_source s p) { health_streak = step_streak b p.health_streak } in
    record_health_cases
      (λ r. is_open health r.0 ≡ decided n (step_streak b p.health_streak) (is_open health p)) b n s
      p (λ u. rw u (set_eligibility_and_log-Logs health true s q h).this)
      (λ u d. rw (u, d) (set_eligibility_and_log-Logs health false s q h).this) (λ u d. rw (u, d))

decided-admitted :
    (b : Bool) (n : ℕ) (rs : List Bool)
    → 1 ≤ n
    → decided n (signed_run (b ∷ rs)) (admitted n rs) ≡ admitted n (b ∷ rs)
decided-admitted true zero rs h = elim h [ ]
decided-admitted false zero rs h = elim h [ ]
decided-admitted true (suc n) rs h = ground arith
decided-admitted false (suc n) rs h = ground arith

length-said : (rs : List (Bool × HealthSignal)) → length (said rs) ≡ length rs
length-said [] = refl
length-said (r ∷ rs) = ap suc (length-said rs)

after_results-GatesByte :
    (n : ℕ) (rs : List (Bool × HealthSignal)) (p : Provider)
    → GatesByte p
    → GatesByte (after_results n rs p)
unfolding after_results
after_results-GatesByte n [] p h = h
after_results-GatesByte n ((b, s) ∷ rs) p h =
    (record_health-Effect b n s (after_results n rs p) (after_results-GatesByte n rs p h)).kept

after_results-streak :
    (n : ℕ) (rs : List (Bool × HealthSignal)) (p : Provider)
    → p.health_streak ≡ pos 0
    → length rs ≤ i64_max
    → (after_results n rs p).health_streak ≡ signed_run (said rs)
unfolding after_results
after_results-streak n [] p z h = z
after_results-streak n ((b, s) ∷ rs) p z h =
    record_health-streak b n s (after_results n rs p)
    ∙ ap (step_streak b) (after_results-streak n rs p z (omega arith))
    ∙ step-signed_run b (said rs) (omega (arith, length-said rs))

-- From an entry with a closed health gate and a zero streak, as a provider is born and as a
-- quarantine leaves it, and over no more results than the largest i64, with a positive threshold:
-- the streak is the signed length of the newest run of agreeing results, and the health gate is
-- what the newest run that ever reached the threshold said. At first the entry's eligibility byte
-- holds only the two gates.
pub after_results-eq-runs :
    (n : ℕ) (rs : List (Bool × HealthSignal)) (p : Provider)
    → GatesByte p
    → p.health_streak ≡ pos 0
    → is_open health p ≡ false
    → 1 ≤ n
    → length rs ≤ i64_max
    → ((after_results n rs p).health_streak ≡ signed_run (said rs))
      × (is_open health (after_results n rs p) ≡ admitted n (said rs))
unfolding after_results
after_results-eq-runs n [] p g z c one h = (z, c)
after_results-eq-runs n ((b, s) ∷ rs) p g z c one h =
    let (streak, gate) = after_results-eq-runs n rs p g z c one (omega arith) in
    let stepped = step-signed_run b (said rs) (omega (arith, length-said rs)) in
    let p' = after_results n rs p in
    (
      after_results-streak n ((b, s) ∷ rs) p z h,
      record_health-health b n s p' (after_results-GatesByte n rs p g)
          ∙ ap (λ k. decided n (step_streak b k) (is_open health p')) streak
          ∙ ap (λ k. decided n k (is_open health p')) stepped
          ∙ ap (decided n (signed_run (b ∷ said rs))) gate
          ∙ decided-admitted b n (said rs) one,
    )
