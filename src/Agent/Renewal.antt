-- ===== src/Agent/Renewal.antt =====
-- agent.rs `refresh_batch`: what the extends of a refresh do to the records they name.
use arkiv_community_lb.Base.{
  ℕ, suc, ◌+◌, ◌%◌, u64_mod, ◌≤◌, ◌<◌, ◌≡◌, refl, inl, inr, ◌⊎◌, true, some, [], ◌∷◌, All,
  All-weaken, arith, Bool-cases, ltb, length,
}
use arkiv_community_lb.Provider.Defs.{eligible}
use arkiv_community_lb.Pool.Defs.{Pool}
use arkiv_community_lb.Chain.Writer.{Operation}
use arkiv_community_lb.Agent.Defs.{Live, KnownAgreements, State, Agent, blocks}
use arkiv_community_lb.Agent.Refresh.{
  Choice, ineligible, expired, expiring_later, refreshed, choose, expires_later, extend_for,
  refresh_each, refresh_batch,
}

-- A record that lives at the head, and whose expiry an extend in the block `at` moves later.
abbrev pub MovesLater : (head at life expires_at : ℕ) → Type 0
MovesLater head at life expires_at = (head < expires_at) × (expires_at < at + blocks life)

-- The operation extends an agreement of an eligible provider, and moves its expiry later.
abbrev pub IsRenewal : Pool → (head at life : ℕ) → KnownAgreements → Operation → Type 0
IsRenewal pool head at life [] op = ⊥
IsRenewal pool head at life ((k, l) ∷ known) op =
    ((op ≡ extend_for k life)
      × (eligible (pool.entry l.provider) ≡ true)
      × MovesLater head at life l.agreement.expires_at)
    ⊎ IsRenewal pool head at life known op

choose-refreshed :
    (pool : Pool) (head life : ℕ) (l : Live)
    → choose pool (some head) life l ≡ refreshed
    → (eligible (pool.entry l.provider) ≡ true)
      × (head < l.agreement.expires_at)
      × (l.agreement.expires_at ≤ head + blocks life)
unfolding choose expires_later
choose-refreshed pool head life l h = ground arith

choice-cases :
    (c : Choice) → (c ≡ ineligible) ⊎ ((c ≡ expired) ⊎ ((c ≡ expiring_later) ⊎ (c ≡ refreshed)))
choice-cases ineligible = inl refl
choice-cases expired = inr (inl refl)
choice-cases expiring_later = inr (inr (inl refl))
choice-cases refreshed = inr (inr (inr refl))

module _ (pool : Pool) (head at life : ℕ) where
  refresh_each-IsRenewal :
      (known : KnownAgreements)
      → head < at
      → All (IsRenewal pool head at life known) (refresh_each pool (some head) life known).batch
        × ((refresh_each pool (some head) life known).ineligible
              + (refresh_each pool (some head) life known).expiring_later
              + length (refresh_each pool (some head) life known).batch
            ≤ length known)
  unfolding refresh_each
  refresh_each-IsRenewal [] h = (tt, omega arith)
  refresh_each-IsRenewal ((k, l) ∷ known) h =
      let rest = refresh_each-IsRenewal known h in
      let kept =
        All-weaken (IsRenewal pool head at life known)
          (IsRenewal pool head at life ((k, l) ∷ known))
          (refresh_each pool (some head) life known).batch (λ op m. inr m) rest.0 in
      elim (choice-cases (choose pool (some head) life l)) [
        | inl e ↦ rw (e, refresh_each) (kept, omega (arith, rest.1))
        | inr (inl e) ↦ rw (e, refresh_each) (kept, omega (arith, rest.1))
        | inr (inr (inl e)) ↦ rw (e, refresh_each) (kept, omega (arith, rest.1))
        | inr (inr (inr e)) ↦
            let c = choose-refreshed pool head life l e in
            rw (e, refresh_each)
              ((inl (refl, c.0, (c.1, omega (arith, c.2, h))), kept), omega (arith, rest.1))
      ]

-- The head was read, and the refresh lands in a later block: every operation of the batch extends the
-- listing, whose expiry it moves later, or the agreement of an eligible provider, which is alive at
-- the head and whose expiry it moves later; and there are no more operations and records that are
-- left out as ineligible or as expiring later than there are agreements, and the listing.
pub refresh_batch_lem :
    (a : Agent) (head at : ℕ) (s : State)
    → head < at
    → let r = refresh_batch a (some head) s in
      All
        (λ op.
          ((op ≡ extend_for a.listing_key a.config.listing_life)
            × (a.listing_expires_at < at + blocks a.config.listing_life))
          ⊎ IsRenewal s.pool head at a.config.agreement_life s.agreements op)
        r.batch
      × (r.ineligible + r.expiring_later + length r.batch ≤ suc (length s.agreements))
unfolding refresh_batch expires_later
refresh_batch_lem a head at s h =
    let r = refresh_each-IsRenewal s.pool head at a.config.agreement_life s.agreements h in
    let kept = All-weaken _ _ _ (λ op m. inr m) r.0 in
    elim (Bool-cases (ltb ((head + blocks a.config.listing_life) % u64_mod) a.listing_expires_at)) [
      | inl e ↦ rw e (kept, omega (arith, r.1))
      | inr e ↦ rw e ((inl (refl, ground arith), kept), omega (arith, r.1))
    ]
