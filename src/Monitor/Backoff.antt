-- ===== src/Monitor/Backoff.antt =====
-- monitor.rs: the wait before the next probe of a provider that does not answer.
use native.Mathlib.Nat.{pow-le-pow_right, mul-le-mul_left}
use arkiv_community_lb.Base.{
  ℕ, ◌+◌, ◌-◌, ◌*◌, ◌^◌, ◌≤◌, min, ◌≡◌, inl, inr, arith, Bool-cases, ltb, u32_max,
}
use arkiv_community_lb.Monitor.{Config, duration_max, factor, probe_delay}

-- After `k` unanswered probes beyond the first `flip_after`, the wait is the probe interval
-- doubled `k` times and capped at the longest backoff, however large `k` is. The longest backoff
-- must be a duration, and be reached within the factor of a u32.
pub probe_delay_doubles :
    (cfg : Config) (k : ℕ)
    → cfg.max_probe_backoff ≤ duration_max
    → cfg.max_probe_backoff ≤ cfg.probe_interval * u32_max
    → probe_delay cfg (cfg.flip_after + k) ≡ min (cfg.probe_interval * 2 ^ k) cfg.max_probe_backoff
unfolding probe_delay factor
probe_delay_doubles cfg k d r =
    let excess : cfg.flip_after + k - cfg.flip_after ≡ k = omega arith in
    elim (Bool-cases (ltb k 32)) [
      | inl small ↦ rw (excess, small) (omega arith)
      | inr large ↦
          let big : 32 ≤ k = ground arith in
          let beyond : 2 ^ 32 ≤ 2 ^ k = pow-le-pow_right (omega arith) big in
          let more : cfg.probe_interval * u32_max ≤ cfg.probe_interval * 2 ^ k =
            mul-le-mul_left cfg.probe_interval (omega arith) in
          rw (excess, large) (omega arith)
    ]
