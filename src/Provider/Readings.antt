-- ===== src/Provider/Readings.antt =====
-- pool.rs: what is stored in an atomic with a reserved value reads back.
use arkiv_community_lb.Base.{
  ℕ, ◌+◌, ◌-◌, ◌/◌, ◌≤◌, ◌<◌, ◌≡◌, ◌↔◌, refl, false, none, some, min, arith, u64_max,
}
use arkiv_community_lb.Provider.Defs.{
  Provider, Verdict, matching, stale, divergence, unknown, record_integrity, last_verdict,
  record_height, last_height, record_probe_duration, last_probe, record_answer, answered_since,
}

-- Every verdict and height survive their slot, and so does every head height but the one value
-- that stands for "never probed", which is read back as the one below it.
pub last_verdict-record_integrity :
    (v : Verdict) (n h : ℕ) (p : Provider)
    → (last_verdict (record_integrity v n p).0 ≡ some (v, n))
      × (last_height (record_height h p) ≡ some (min h (u64_max - 1)))
unfolding last_verdict record_integrity last_height record_height
last_verdict-record_integrity matching n h p = (refl, ground arith)
last_verdict-record_integrity stale n h p = (refl, ground arith)
last_verdict-record_integrity divergence n h p = (refl, ground arith)
last_verdict-record_integrity unknown n h p = (refl, ground arith)

-- A recorded probe time reads back as "never probed" exactly when it is u64::MAX milliseconds: the
-- clamp covers the times that do not fit the u64 and misses that one.
pub last_probe-record_probe_duration :
    (nanos : ℕ) (p : Provider)
    → (last_probe (record_probe_duration nanos p) ≡ none) ↔ (nanos / 1000000 ≡ u64_max)
unfolding last_probe record_probe_duration
last_probe-record_probe_duration nanos p = ground arith

-- An answer a millisecond or more before a moment does not.
pub answered_since_later :
    (since now : ℕ) (p : Provider)
    → p.created ≤ now
    → (now - p.created) / 1000000 < u64_max
    → now + 1000000 ≤ since
    → answered_since since (record_answer now p) ≡ false
unfolding answered_since record_answer
answered_since_later since now p h k a = ground arith
