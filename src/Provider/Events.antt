-- ===== src/Provider/Events.antt =====
-- pool.rs: a provider's life as a sequence of the updates that the tasks make on its entry, in
-- the order in which the atomics took them.
use arkiv_community_lb.Base.{
  ℕ, ◌≡◌, refl, Bool, true, false, not, Option, none, some, List, [], ◌∷◌, inl, inr, Bool-cases,
}
use arkiv_community_lb.Base.Int.{pos, neg, leb_ℤ}
use mathlib.Core.Path.{subst₂}
use arkiv_community_lb.Provider.Defs.{
  Provider, Gate, health, integrity, HealthSignal, Flip, Verdict, matching, stale, divergence,
  unknown, eligible, flip_event, step_streak, set_eligibility, set_eligibility_and_log,
  record_health_source, record_integrity, record_health, quarantine, schedule_probe_now,
  take_chain_check_due, record_unanswered_probe, record_answered_probe, record_probe_duration,
  record_height, record_served, subtract_served, seed_served, record_transport_failure,
}
use arkiv_community_lb.Provider.Gates.{GatesByte, is_open, other, Sets, set_eligibility-Sets}

pub data Event : Type 0 where
  health_result : (success : Bool) (flip_after : ℕ) → HealthSignal → Event
  quarantined : HealthSignal → Event
  judged : Verdict → (height : ℕ) → Event
  probe_asked probe_answered served_at probe_took height_seen next_probe_at : ℕ → Event
  closed seeded : ℕ → Event
  probe_unanswered chain_check_taken transport_failed : Event
  chain_checked : Bool → Event

abbrev quiet : Provider → Provider × Option Flip
quiet p = (p, none)

unfoldable pub apply : Event → Provider → Provider × Option Flip
unfolding record_health quarantine record_integrity schedule_probe_now take_chain_check_due
    record_unanswered_probe record_answered_probe record_probe_duration record_height record_served
    subtract_served seed_served record_transport_failure
apply (health_result success flip_after source) p = record_health success flip_after source p
apply (quarantined source) p = quarantine source p
apply (judged v h) p = record_integrity v h p
apply (probe_asked now) p = quiet (schedule_probe_now now p)
apply (probe_answered now) p = quiet (record_answered_probe now p)
apply (served_at now) p = quiet (record_served now p)
apply (probe_took nanos) p = quiet (record_probe_duration nanos p)
apply (height_seen h) p = quiet (record_height h p)
apply (next_probe_at t) p = quiet (record p { next_probe = t })
apply (closed n) p = quiet (subtract_served n p)
apply (seeded n) p = quiet (seed_served n p)
apply probe_unanswered p = quiet (record_unanswered_probe p)
apply chain_check_taken p = quiet (take_chain_check_due p).1
apply transport_failed p = quiet (record_transport_failure p)
apply (chain_checked b) p = quiet (record p { chain_verified = b })

-- The entry after a history, and the flips that were logged, oldest first.
abbrev pub cons_flip : Option Flip → List Flip → List Flip
cons_flip none fs = fs
cons_flip (some f) fs = f ∷ fs

unfoldable pub run : List Event → Provider → Provider × List Flip
run [] p = (p, [])
run (e ∷ es) p =
    let (p', flip) = apply e p in let (q, flips) = run es p' in (q, cons_flip flip flips)

-- How a flip event follows what `eligible` answers.
abbrev pub Follows : Bool → Option Flip → Bool → Type 0
Follows before none after = after ≡ before
Follows before (some f) after = (after ≡ not before) × (f.now_eligible ≡ after)

-- The effect of one update: the byte stays a byte of gates, and exactly a flip is logged.
pub record Effect (before : Bool) (r : Provider × Option Flip) : Type 0 where
  pub kept : GatesByte r.0
  pub follows : Follows before r.1 (eligible r.0)

pub record Logs (g : Gate) (v : Bool) (p : Provider) (r : Provider × Option Flip) : Type 0 where
  pub effect : Effect (eligible p) r
  pub this : is_open g r.0 ≡ v
  pub that : is_open (other g) r.0 ≡ is_open (other g) p

flip_event-Follows : (was now : Bool) (s : HealthSignal) → Follows was (flip_event was now s) now
flip_event-Follows true true s = refl
flip_event-Follows true false s = (refl, refl)
flip_event-Follows false true s = (refl, refl)
flip_event-Follows false false s = refl

pub set_eligibility_and_log-Logs :
    (g : Gate) (v : Bool) (s : HealthSignal) (p : Provider)
    → GatesByte p
    → Logs g v p (set_eligibility_and_log g v s p)
unfolding set_eligibility_and_log
set_eligibility_and_log-Logs g v s p h =
    let r = set_eligibility g v p in
    let sets : Sets g v p r = set_eligibility-Sets g v p h in
    record {
      effect = record {
        kept = sets.kept;
        follows =
            subst₂ (λ was now. Follows was (flip_event r.0 r.1 s) now) sets.was sets.is_now
              (flip_event-Follows r.0 r.1 s);
      };
      this = sets.this;
      that = sets.that;
    }

-- An update that leaves the byte alone logs nothing.
quiet-Effect :
    (p q : Provider) → GatesByte p → q.eligibility ≡ p.eligibility → Effect (eligible p) (quiet q)
unfolding eligible
quiet-Effect p q h e = record { kept = rw e h; follows = rw e }

record_integrity-Effect :
    (v : Verdict) (height : ℕ) (p : Provider)
    → GatesByte p
    → Effect (eligible p) (record_integrity v height p)
unfolding record_integrity eligible
record_integrity-Effect matching n p h = (set_eligibility_and_log-Logs integrity true _ _ h).effect
record_integrity-Effect stale n p h = quiet-Effect p _ h refl
record_integrity-Effect divergence n p h =
    (set_eligibility_and_log-Logs integrity false _ _ h).effect
record_integrity-Effect unknown n p h = quiet-Effect p _ h refl

quarantine-Effect :
    (s : HealthSignal) (p : Provider) → GatesByte p → Effect (eligible p) (quarantine s p)
unfolding quarantine eligible
quarantine-Effect s p h = (set_eligibility_and_log-Logs health false s _ h).effect

-- What holds of an update by a health result holds on each of its three branches.
pub record_health_cases {ℓ} :
    (P : Provider × Option Flip → Type ℓ) (success : Bool) (flip_after : ℕ) (s : HealthSignal)
    (p : Provider)
    → let streak = step_streak success p.health_streak in
      let q = record (record_health_source s p) { health_streak = streak } in
      (leb_ℤ (pos flip_after) streak ≡ true → P (set_eligibility_and_log health true s q))
      → (leb_ℤ (pos flip_after) streak ≡ false
          → leb_ℤ streak (neg flip_after) ≡ true
          → P (set_eligibility_and_log health false s q))
      → (leb_ℤ (pos flip_after) streak ≡ false
          → leb_ℤ streak (neg flip_after) ≡ false
          → P (q, none))
      → P (record_health success flip_after s p)
unfolding record_health
record_health_cases P success n s p up down still =
    let streak = step_streak success p.health_streak in
    elim (Bool-cases (leb_ℤ (pos n) streak)) [
      | inl e ↦ rw (e, record_health) (up e)
      | inr e ↦ elim (Bool-cases (leb_ℤ streak (neg n))) [
        | inl e' ↦ rw (e, e', record_health) (down e e')
        | inr e' ↦ rw (e, e', record_health) (still e e')
      ]
    ]

pub record_health-Effect :
    (success : Bool) (n : ℕ) (s : HealthSignal) (p : Provider)
    → GatesByte p
    → Effect (eligible p) (record_health success n s p)
unfolding eligible record_health_source
record_health-Effect success n s p h =
    record_health_cases (Effect (eligible p)) success n s p
      (λ _. (set_eligibility_and_log-Logs health true s _ h).effect)
      (λ _ _. (set_eligibility_and_log-Logs health false s _ h).effect)
      (λ _ _. quiet-Effect p _ h refl)

-- Every update keeps the byte and logs a flip exactly when `eligible` changes its answer.
pub apply-Effect : (e : Event) (p : Provider) → GatesByte p → Effect (eligible p) (apply e p)
unfolding apply
apply-Effect (health_result success n s) p h = record_health-Effect success n s p h
apply-Effect (quarantined s) p h = quarantine-Effect s p h
apply-Effect (judged v n) p h = record_integrity-Effect v n p h
apply-Effect (probe_asked now) p h = quiet-Effect p _ h refl
apply-Effect (probe_answered now) p h = quiet-Effect p _ h refl
apply-Effect (served_at now) p h = quiet-Effect p _ h refl
apply-Effect (probe_took nanos) p h = quiet-Effect p _ h refl
apply-Effect (height_seen n) p h = quiet-Effect p _ h refl
apply-Effect (next_probe_at t) p h = quiet-Effect p _ h refl
apply-Effect (closed n) p h = quiet-Effect p _ h refl
apply-Effect (seeded n) p h = quiet-Effect p _ h refl
apply-Effect probe_unanswered p h = quiet-Effect p _ h refl
apply-Effect chain_check_taken p h = quiet-Effect p _ h refl
apply-Effect transport_failed p h = quiet-Effect p _ h refl
apply-Effect (chain_checked b) p h = quiet-Effect p _ h refl
