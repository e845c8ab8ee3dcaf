-- ===== src/Monitor/Chain.antt =====
-- monitor.rs: the chain check as the gate before every probe.
use arkiv_community_lb.Base.{
  String, ℕ, ◌≡◌, refl, ◌∙◌, sym, ap, inl, inr, ◌⊎◌, Bool, true, false, not, ◌||◌, ◌&&◌, Option,
  none, some, List, [], ◌∷◌, arith, Bool-cases, Option-cases, leb, ◌==◌,
}
use arkiv_community_lb.Provider.Defs.{
  Provider, HealthSignal, Verdict, matching, stale, divergence, unknown, health, integrity,
  by_integrity, chain, probe, lag, eligible, record_health, record_health_source, quarantine,
  take_chain_check_due, set_eligibility_and_log, record_integrity, record_unanswered_probe,
  record_answered_probe, record_answer, record_probe_duration, record_height,
}
use arkiv_community_lb.Provider.Defs
use arkiv_community_lb.Provider.Gates.{GatesByte, is_open, eligible-eq-gates}
use arkiv_community_lb.Provider.Events.{
  Event, health_result, judged, chain_checked, apply, apply-Effect, record_health_cases,
  record_health-Effect, set_eligibility_and_log-Logs,
}
use arkiv_community_lb.Provider.History.{is_success, apply-closed}
use arkiv_community_lb.Monitor.{
  Config, Replies, verify_chain, chain_cleared, is_behind, run_probe, reschedule_unanswered, visit,
}

-- A provider's health gate is open only if it was found on the right chain.
pub record IsOnChain (p : Provider) : Type 0 where
  pub byte : GatesByte p
  pub verified : (is_open health p ≡ false) ⊎ (p.chain_verified ≡ true)

-- What the other tasks do: no success, and no verdict on the chain.
abbrev pub is_foreign : Event → Bool
is_foreign (health_result success _ _) = not success
is_foreign (chain_checked _) = false
is_foreign _ = true

foreign_no_success : (e : Event) → is_foreign e ≡ true → is_success e ≡ false
foreign_no_success (health_result b n s) h = ground arith
foreign_no_success (chain_checked b) h = refl
foreign_no_success _ h = refl

record_health-chain_verified :
    (b : Bool) (n : ℕ) (s : HealthSignal) (p : Provider)
    → (record_health b n s p).0.chain_verified ≡ p.chain_verified
unfolding set_eligibility_and_log record_health_source
record_health-chain_verified b n s p =
    record_health_cases (λ r. r.0.chain_verified ≡ p.chain_verified) b n s p (λ _. refl)
      (λ _ _. refl) (λ _ _. refl)

foreign-chain_verified :
    (e : Event) (p : Provider)
    → is_foreign e ≡ true
    → (apply e p).0.chain_verified ≡ p.chain_verified
unfolding apply
foreign-chain_verified (health_result b n s) p h = record_health-chain_verified b n s p
foreign-chain_verified (judged matching n) p h = refl
foreign-chain_verified (judged stale n) p h = refl
foreign-chain_verified (judged divergence n) p h = refl
foreign-chain_verified (judged unknown n) p h = refl
foreign-chain_verified (chain_checked b) p h = cc
foreign-chain_verified _ p h = refl

foreign-IsOnChain :
    (e : Event) (p : Provider) → is_foreign e ≡ true → IsOnChain p → IsOnChain (apply e p).0
foreign-IsOnChain e p h v = record {
  byte = (apply-Effect e p v.byte).kept;
  verified = elim v.verified [
    | inl shut ↦ inl (apply-closed e p v.byte (foreign_no_success e h) shut)
    | inr good ↦ inr (foreign-chain_verified e p h ∙ good)
  ];
}

verify_chain-IsOnChain :
    (expected : ℕ) (answer : Option ℕ) (p : Provider)
    → IsOnChain p
    → IsOnChain (verify_chain expected answer p)
unfolding verify_chain quarantine record_health_source
verify_chain-IsOnChain expected none p v = v
verify_chain-IsOnChain expected (some actual) p v = elim (Bool-cases (actual == expected)) [
  | inl e ↦ rw e (record { byte = v.byte; verified = inr refl })
  | inr e ↦
      let shut = set_eligibility_and_log-Logs health false chain _ v.byte in
      rw e (record { byte = shut.effect.kept; verified = inl shut.this })
]

-- An entry that the chain check clears is verified, and it stays on the chain either way.
abbrev Clears : Bool × Provider → Type 0
Clears (cleared, p) = IsOnChain p × (cleared ≡ p.chain_verified)

chain_cleared-Clears :
    (cfg : Config) (expected : ℕ) (chain_round : Bool) (replies : Replies) (p : Provider)
    → cfg.chain_id ≡ some expected
    → IsOnChain p
    → Clears (chain_cleared cfg chain_round replies p)
unfolding chain_cleared take_chain_check_due is_open
chain_cleared-Clears cfg expected chain_round replies p c v =
    let taken : IsOnChain (record p { chain_check_due = false }) = record {
      byte = v.byte;
      verified = v.verified;
    } in
    elim (Bool-cases (chain_round || p.chain_check_due)) [
      | inl asked ↦
          rw (c, chain_cleared, asked)
            (verify_chain-IsOnChain expected replies.chain_id _ taken, refl)
      | inr not_asked ↦ rw (c, chain_cleared, not_asked) (taken, refl)
    ]

-- A probe writes neither the chain's verdict nor anything but gates to the byte.
abbrev Probed : Provider → Provider → Type 0
Probed p q = GatesByte q × (q.chain_verified ≡ p.chain_verified)

record_health-Probed :
    (b : Bool) (n : ℕ) (s : HealthSignal) (p : Provider)
    → GatesByte p
    → Probed p (record_health b n s p).0
record_health-Probed b n s p h =
    ((record_health-Effect b n s p h).kept, record_health-chain_verified b n s p)

run_probe-Probed :
    (cfg : Config) (reference : Option ℕ) (replies : Replies) (p : Provider)
    → GatesByte p
    → Probed p (run_probe cfg reference replies p).1
unfolding run_probe record_unanswered_probe record_probe_duration record_height
    record_answered_probe
run_probe-Probed cfg reference replies p h = elim (Option-cases replies.block_number) [
  | inl e ↦ rw (e, run_probe) (record_health-Probed false cfg.flip_after probe _ h)
  | inr (height, e) ↦ elim (Bool-cases (is_behind cfg height reference)) [
    | inl behind ↦ rw (e, run_probe) (rw behind (record_health-Probed false cfg.flip_after lag _ h))
    | inr close ↦ rw (e, run_probe) (rw close (record_health-Probed true cfg.flip_after probe _ h))
  ]
]

-- A visit keeps an entry on the chain: it is probed only once it is verified.
visit-IsOnChain :
    (cfg : Config) (expected now : ℕ) (reference : Option ℕ) (chain_round : Bool)
    (replies : Replies) (p : Provider)
    → cfg.chain_id ≡ some expected
    → IsOnChain p
    → IsOnChain (visit cfg now reference chain_round replies p)
unfolding visit reschedule_unanswered
visit-IsOnChain cfg expected now reference chain_round replies p c v =
    let (cleared, p1) = chain_cleared cfg chain_round replies p in
    let (on, same) = chain_cleared-Clears cfg expected chain_round replies p c v in
    let (answered, p2) = run_probe cfg reference replies p1 in
    let probed = run_probe-Probed cfg reference replies p1 on.byte in
    elim (Bool-cases (leb p.next_probe now)) [
      | inr later ↦ rw later v
      | inl due ↦ elim (Bool-cases cleared) [
        | inr stopped ↦ rw (due, stopped) on
        | inl free ↦
            let good : p2.chain_verified ≡ true = probed.1 ∙ sym same ∙ free in
            elim (Bool-cases answered) [
              | inl replied ↦
                  rw (due, free, replied) (record { byte = probed.0; verified = inr good })
              | inr silent ↦
                  rw (due, free, silent) (record { byte = probed.0; verified = inr good })
            ]
      ]
    ]

-- The life of an entry: the Monitor's visits and what the other tasks do between them.
pub data Deed : Type 0 where
  visited : (now : ℕ) (reference : Option ℕ) (chain_round : Bool) → Replies → Deed
  felt : (e : Event) → is_foreign e ≡ true → Deed

unfoldable pub live : Config → List Deed → Provider → Provider
live cfg [] p = p
live cfg (visited now reference chain_round replies ∷ ds) p =
    live cfg ds (visit cfg now reference chain_round replies p)
live cfg (felt e h ∷ ds) p = live cfg ds (apply e p).0

live-IsOnChain :
    (cfg : Config) (expected : ℕ) (ds : List Deed) (p : Provider)
    → cfg.chain_id ≡ some expected
    → IsOnChain p
    → IsOnChain (live cfg ds p)
unfolding live
live-IsOnChain cfg expected [] p c v = v
live-IsOnChain cfg expected (visited now reference chain_round replies ∷ ds) p c v =
    live-IsOnChain cfg expected ds _ c
      (visit-IsOnChain cfg expected now reference chain_round replies p c v)
live-IsOnChain cfg expected (felt e h ∷ ds) p c v =
    live-IsOnChain cfg expected ds _ c (foreign-IsOnChain e p h v)

new-IsOnChain :
    (id url : String) (source : Defs.Source) (now : ℕ) → IsOnChain (Defs.new id url source now)
unfolding Defs.new is_open
new-IsOnChain id url source now = record { byte = omega arith; verified = inl refl }

verified_if_open : (p : Provider) → IsOnChain p → eligible p ≡ true → p.chain_verified ≡ true
verified_if_open p v e = elim v.verified [
  | inr good ↦ good
  | inl shut ↦ cc (sym e ∙ eligible-eq-gates p v.byte ∙ ap (λ b. b && is_open integrity p) shut)
]

-- With a chain id configured, a provider in rotation is marked as verified on the chain: from its
-- entry's making on, through any visits of the Monitor, whatever the provider answers them, and
-- through anything that the other tasks do to the entry, which is no successful health result and
-- no mark of the chain check.
pub live-eligible-chain_verified :
    (cfg : Config) (expected : ℕ) (ds : List Deed) (id url : String) (source : Defs.Source)
    (now : ℕ)
    → cfg.chain_id ≡ some expected
    → eligible (live cfg ds (Defs.new id url source now)) ≡ true
    → (live cfg ds (Defs.new id url source now)).chain_verified ≡ true
live-eligible-chain_verified cfg expected ds id url source now c =
    verified_if_open _ (live-IsOnChain cfg expected ds _ c (new-IsOnChain id url source now))
