-- ===== src/Agent/Adoption.antt =====
-- agent.rs `adopt_agreements`: what one record that the chain has does to memory.
use arkiv_community_lb.Base.{
  ℕ, ◌≡◌, refl, sym, ap, subst, inl, inr, ◌⊎◌, false, none, List, [], ◌∷◌, ◌++◌, any, All, Member,
  Bool-cases, Option-cases, ◌==◌,
}
use arkiv_community_lb.Pool.Members.{Distinct, Distinct-snoc}
use arkiv_community_lb.Chain.Records.{Agreement, Stored}
use arkiv_community_lb.Agent.Defs.{Live, KnownAgreements, State, Agent, lookup, alter, keys}
use arkiv_community_lb.Agent.Known.{
  any-Member, any-none, map-snoc, All-snoc, Member-last, Member-before, lookup-none, lookup-some,
  insert-new, map-alter, alter-All,
}
use arkiv_community_lb.Agent.Reconcile.{
  dated, provider_of, providers, enter, adopt, adopt_agreements,
}

-- Memory in order: one entry for a key, which is its record's, and one for a provider.
pub record IsConsistent (known : KnownAgreements) : Type 0 where
  pub keyed : All (λ p. p.0 ≡ p.1.agreement.key) known
  pub distinct_keys : Distinct (keys known)
  pub distinct_providers : Distinct (providers known)

-- Keys and providers stay in memory while records are adopted.
abbrev Grows : KnownAgreements → KnownAgreements → Type 0
Grows known more =
    ((k : ℕ) → Member k (keys known) → Member k (keys more))
    × ((q : ℕ) → Member q (providers known) → Member q (providers more))

-- The record has its entry, or its provider has another one.
abbrev pub IsRepresented : KnownAgreements → Stored Agreement → Type 0
IsRepresented known r = Member r.key (keys known) ⊎ Member r.content.provider (providers known)

module _ (a : Agent) (now : ℕ) where
  -- What adopting a record does: it dates the entry of its key, leaves memory as it is where the
  -- provider has another agreement, or adds an entry.
  pub adopt-cases :
      (P : KnownAgreements → Type 0) (r : Stored Agreement) (s : State)
      → (Member r.key (keys s.agreements) → P (alter r.key (dated r) s.agreements))
      → (¬ (Member r.key (keys s.agreements))
          → Member r.content.provider (providers s.agreements)
          → P s.agreements)
      → ((l : Live)
          → l.agreement ≡ r
          → ¬ (Member r.key (keys s.agreements))
          → ¬ (Member r.content.provider (providers s.agreements))
          → P (s.agreements ++ (r.key, l) ∷ []))
      → P (adopt a now r s).agreements
  unfolding adopt enter
  adopt-cases P r s held taken fresh = elim (Option-cases (lookup r.key s.agreements)) [
    | inr e ↦ rw (e.1, adopt) (held (lookup-some r.key s.agreements e.0 e.1))
    | inl e ↦ elim (Bool-cases (any (λ q. q == r.content.provider) (providers s.agreements))) [
      | inl t ↦
          rw (e, adopt, t)
            (taken (lookup-none r.key s.agreements e)
              (any-Member (providers s.agreements) r.content.provider t))
      | inr f ↦
          let l : Live = record {
            agreement = r;
            provider = s.pool.fresh;
            counter = none;
            admission_task = false;
          } in
          rw (e, adopt, f)
            (subst P (sym (insert-new r.key l s.agreements e)) (
              fresh l refl (lookup-none r.key s.agreements e)
                (any-none (providers s.agreements) r.content.provider f)))
    ]
  ]

  pub adopt-IsConsistent :
      (r : Stored Agreement) (s : State)
      → IsConsistent s.agreements
      → IsConsistent (adopt a now r s).agreements
  adopt-IsConsistent r s w =
      adopt-cases IsConsistent r s
        (λ m. record {
          keyed =
              alter-All r.key (dated r) (λ p. p.0 ≡ p.1.agreement.key)
                (λ p. p.0 ≡ p.1.agreement.key) (λ l e. e) (λ k l n e. e) s.agreements
                w.distinct_keys w.keyed;
          distinct_keys =
              subst Distinct
                (sym (map-alter r.key (dated r) (λ (p : ℕ × Live). p.0) (λ k l. refl) s.agreements))
                w.distinct_keys;
          distinct_providers =
              subst Distinct
                (sym (
                  map-alter r.key (dated r) (λ (p : ℕ × Live). provider_of p.1) (λ k l. refl)
                    s.agreements))
                w.distinct_providers;
        })
        (λ n m. w)
        (λ l e k q. record {
          keyed =
              All-snoc _ s.agreements (r.key, l) w.keyed
                (ap (λ (t : Stored Agreement). t.key) (sym e));
          distinct_keys =
              subst Distinct (sym (map-snoc (λ (p : ℕ × Live). p.0) s.agreements (r.key, l)))
                (Distinct-snoc (keys s.agreements) r.key w.distinct_keys k);
          distinct_providers =
              subst Distinct
                (sym (map-snoc (λ (p : ℕ × Live). provider_of p.1) s.agreements (r.key, l)))
                (Distinct-snoc (providers s.agreements) (provider_of l) w.distinct_providers (
                  subst (λ t. ¬ (Member (t.content.provider) (providers s.agreements))) (sym e) q));
        })

  adopt-Grows :
      (r : Stored Agreement) (s : State)
      → Grows s.agreements (adopt a now r s).agreements
        × IsRepresented (adopt a now r s).agreements r
  adopt-Grows r s =
      adopt-cases (λ known. Grows s.agreements known × IsRepresented known r) r s
        (λ m.
          let ks = map-alter r.key (dated r) (λ (p : ℕ × Live). p.0) (λ k l. refl) s.agreements in
          let ps =
            map-alter r.key (dated r) (λ (p : ℕ × Live). provider_of p.1) (λ k l. refl)
              s.agreements in
          (
            ((λ j n. subst (Member j) (sym ks) n), (λ j n. subst (Member j) (sym ps) n)),
            inl (subst (Member r.key) (sym ks) m),
          ))
        (λ n m. (((λ k n. n), (λ q n. n)), inr m))
        (λ l e k q.
          let ks = map-snoc (λ (p : ℕ × Live). p.0) s.agreements (r.key, l) in
          let ps = map-snoc (λ (p : ℕ × Live). provider_of p.1) s.agreements (r.key, l) in
          (
            (
              (λ j n. subst (Member j) (sym ks) (Member-before (keys s.agreements) r.key j n)),
              (λ j n.
                  subst (Member j) (sym ps)
                    (Member-before (providers s.agreements) (provider_of l) j n)),
            ),
            inl (subst (Member r.key) (sym ks) (Member-last (keys s.agreements) r.key)),
          ))

  adopt_agreements-Grows :
      (live : List (Stored Agreement)) (s : State)
      → Grows s.agreements (adopt_agreements a now live s).agreements
  unfolding adopt_agreements
  adopt_agreements-Grows [] s = ((λ k n. n), (λ q n. n))
  adopt_agreements-Grows (r ∷ live) s =
      let first = (adopt-Grows r s).0 in
      let rest = adopt_agreements-Grows live (adopt a now r s) in
      ((λ k n. rest.0 k (first.0 k n)), (λ q n. rest.1 q (first.1 q n)))

  pub adopt_agreements-IsRepresented :
      (live : List (Stored Agreement)) (s : State)
      → All (IsRepresented (adopt_agreements a now live s).agreements) live
  unfolding adopt_agreements
  adopt_agreements-IsRepresented [] s = tt
  adopt_agreements-IsRepresented (r ∷ live) s =
      let grows = adopt_agreements-Grows live (adopt a now r s) in
      (
        elim (adopt-Grows r s).1 [
          | inl m ↦ inl (grows.0 r.key m)
          | inr m ↦ inr (grows.1 r.content.provider m)
        ],
        adopt_agreements-IsRepresented live (adopt a now r s),
      )

  pub adopt_agreements-IsConsistent :
      (live : List (Stored Agreement)) (s : State)
      → IsConsistent s.agreements
      → IsConsistent (adopt_agreements a now live s).agreements
  unfolding adopt_agreements
  adopt_agreements-IsConsistent [] s w = w
  adopt_agreements-IsConsistent (r ∷ live) s w =
      adopt_agreements-IsConsistent live (adopt a now r s) (adopt-IsConsistent r s w)
