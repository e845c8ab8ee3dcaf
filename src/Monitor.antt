-- ===== src/Monitor.antt =====
-- crates/lb/src/monitor.rs: the probe loop. What the providers and the reference answer and when
-- are inputs; times are nanoseconds, and a visit is what one sweep does with one provider.
pub mod Quantity
pub mod Query
pub mod Backoff
pub mod Chain
pub mod Visits
use arkiv_community_lb.Base.{
  ℕ, zero, suc, ◌+◌, ◌-◌, ◌*◌, ◌^◌, min, Bool, true, false, not, ◌||◌, Option, none, some, List, [],
  ◌∷◌, any, ltb, leb, ◌==◌, if◌then◌else◌, u32_max, saturating_add_u64,
}
use arkiv_community_lb.Provider.Defs.{
  Provider, probe, lag, chain, record_health, quarantine, take_chain_check_due,
  record_unanswered_probe, record_answered_probe, record_probe_duration, record_height,
}
use arkiv_community_lb.Pool.Defs.{Pool, modify, in_rotation}

-- config.rs `Health`, the fields that the Monitor reads.
pub record Config : Type 0 where
  pub flip_after : ℕ
  pub probe_interval : ℕ
  pub max_probe_backoff : ℕ
  pub ref_height_interval : ℕ
  pub chainid_check_interval : ℕ
  pub chain_id : Option ℕ
  pub lag_tolerance_blocks : ℕ

-- `Duration::MAX`
abbrev pub duration_max : ℕ
duration_max = (2 ^ 64 - 1) * 1000000000 + 999999999

-- `1u32.checked_shl(excess).unwrap_or(u32::MAX)`
unfoldable pub factor : ℕ → ℕ
factor excess = if ltb excess 32 then 2 ^ excess else u32_max

unfoldable pub probe_delay : Config → ℕ → ℕ
unfolding factor
probe_delay cfg failures =
    let excess = failures - cfg.flip_after in
    min (min (cfg.probe_interval * factor excess) duration_max) cfg.max_probe_backoff

-- What one provider answers in one sweep: to `eth_chainId` and to `eth_blockNumber`, with `none`
-- for any shortfall, how long the probe took and when it was done.
pub record Replies : Type 0 where
  pub chain_id : Option ℕ
  pub block_number : Option ℕ
  pub took : ℕ
  pub done_at : ℕ

unfoldable pub verify_chain : ℕ → Option ℕ → Provider → Provider
verify_chain expected none p = p
verify_chain expected (some actual) p =
    if actual == expected
    then record p { chain_verified = true }
    else (quarantine chain (record p { chain_verified = false })).0

unfoldable pub chain_cleared : Config → Bool → Replies → Provider → Bool × Provider
unfolding verify_chain
chain_cleared cfg chain_round replies p = elim cfg.chain_id [
  | none ↦ (true, p)
  | some expected ↦
      let (asked, p1) = take_chain_check_due p in
      let p2 = if chain_round || asked then verify_chain expected replies.chain_id p1 else p1 in
      (p2.chain_verified, p2)
]

-- Behind the reference by more than the tolerance; nobody is behind an unknown reference.
abbrev pub is_behind : Config → ℕ → Option ℕ → Bool
is_behind cfg height none = false
is_behind cfg height (some reference) =
    ltb (saturating_add_u64 height cfg.lag_tolerance_blocks) reference

-- `probe`: whether the provider answered, and its entry.
unfoldable pub run_probe : Config → Option ℕ → Replies → Provider → Bool × Provider
run_probe cfg reference replies p =
    let p1 = record_probe_duration replies.took p in
    elim replies.block_number [
      | none ↦ (false, (record_health false cfg.flip_after probe (record_unanswered_probe p1)).0)
      | some height ↦
          let p2 = record_height height (record_answered_probe replies.done_at p1) in
          (
            true,
            if is_behind cfg height reference
                then (record_health false cfg.flip_after lag p2).0
                else (record_health true cfg.flip_after probe p2).0,
          )
    ]

unfoldable pub reschedule_unanswered : Config → ℕ → Provider → Provider
unfolding probe_delay
reschedule_unanswered cfg now p = record p {
  next_probe = now + probe_delay cfg p.unanswered_probe_streak;
}

-- The body of `probe_all` for one provider, in the sweep that began at `now`.
unfoldable pub visit : Config → (now : ℕ) → Option ℕ → Bool → Replies → Provider → Provider
unfolding chain_cleared run_probe reschedule_unanswered
visit cfg now reference chain_round replies p =
    if leb p.next_probe now
    then (let (cleared, p1) = chain_cleared cfg chain_round replies p in
        let (answered, p2) = run_probe cfg reference replies p1 in
        if cleared then (if answered then p2 else reschedule_unanswered cfg now p2) else p1)
    else p

-- `probe_all` over the handles of a snapshot. Probes run interleaved, each on an entry of its own.
unfoldable pub probe_all :
    Config → (now : ℕ) → Option ℕ → Bool → (ℕ → Replies) → List ℕ → Pool → Pool
unfolding visit
probe_all cfg now reference chain_round replies [] s = s
probe_all cfg now reference chain_round replies (h ∷ hs) s =
    probe_all cfg now reference chain_round replies hs
      (modify h (visit cfg now reference chain_round (replies h)) s)

-- `ReferenceHeight`
pub record ReferenceHeight : Type 0 where
  pub height : Option ℕ
  pub asked : Option ℕ

-- Whether an interval has gone by since a moment, or there was no such moment.
abbrev pub is_due : Option ℕ → (interval now : ℕ) → Bool
is_due none interval now = true
is_due (some at) interval now = leb interval (now - at)

-- `refresh_reference_height`, with a reference configured or not, and what it answers if asked.
unfoldable pub refresh_reference_height :
    Config
    → (configured : Bool) → (now : ℕ) → (answer : Option ℕ) → ReferenceHeight
    → ReferenceHeight
refresh_reference_height cfg configured now answer r =
    if not configured
    then r
    else if not (is_due r.asked cfg.ref_height_interval now)
    then r
    else record { height = answer; asked = some now }

-- The state of `run` between two ticks.
pub record Monitor : Type 0 where
  pub reference : ReferenceHeight
  pub last_chain_round : Option ℕ
  pub rounds : ℕ
  pub ready : Bool

unfoldable pub fresh_monitor : Monitor
fresh_monitor = record {
  reference = record { height = none; asked = none };
  last_chain_round = none;
  rounds = 0;
  ready = false;
}

-- One tick of `run`: the reference, then the sweep, then the count of rounds.
unfoldable pub tick :
    Config
    → (configured : Bool) → (now : ℕ) → (answer : Option ℕ) → (ℕ → Replies)
    → Monitor × Pool
    → Monitor × Pool
unfolding refresh_reference_height probe_all
tick cfg configured now answer replies (m, s) =
    let reference = refresh_reference_height cfg configured now answer m.reference in
    let chain_round = is_due m.last_chain_round cfg.chainid_check_interval now in
    let s' = probe_all cfg now reference.height chain_round replies s.members s in
    let rounds = min (m.rounds + 1) u32_max in
    (
      record {
        reference = reference;
        last_chain_round = if chain_round then some now else m.last_chain_round;
        rounds = rounds;
        ready = if rounds == cfg.flip_after then true else m.ready;
      },
      s',
    )
