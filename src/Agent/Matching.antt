-- ===== src/Agent/Matching.antt =====
-- agent.rs: after a reconcile, what memory holds is what the chain has.
use arkiv_community_lb.Base.{
  ℕ, ◌+◌, ◌≡◌, refl, sym, ap, subst, inl, inr, ◌⊎◌, Bool, false, List, [], ◌∷◌, All-weaken, map,
  any, filter, All, Member, arith, Bool-cases, ◌==◌,
}
use arkiv_community_lb.Pool.Defs.{Pool}
use arkiv_community_lb.Chain.Records.{Agreement, Stored}
use arkiv_community_lb.Agent.Defs.{Live, KnownAgreements, State, Agent}
use arkiv_community_lb.Agent.Known.{
  any-Member, filter-Distinct, filter-All, filter-passes, All-snoc, alter-All, untouched,
}
use arkiv_community_lb.Chain.Writer.{Sent}
use arkiv_community_lb.Base.Results.{ok, Result-cases, ok-eq}
use arkiv_community_lb.Agent.Reconcile.{
  reconcile_agreements, read_agreements, end_agreements, dated, adopt, adopt_agreements,
  match_chain,
}
use arkiv_community_lb.Agent.Adoption.{
  IsConsistent, IsRepresented, adopt-cases, adopt-IsConsistent, adopt_agreements-IsRepresented,
  adopt_agreements-IsConsistent,
}

abbrev is_among : List ℕ → ℕ → Bool
is_among live k = any (λ j. j == k) live

-- What the agreements on the chain leave of memory.
kept : List ℕ → KnownAgreements → KnownAgreements
kept live known = filter (λ p. is_among live p.0) known

end_agreements-kept :
    (live : List ℕ) (known : KnownAgreements) (pool : Pool)
    → (end_agreements live known pool).1.agreements ≡ kept live known
unfolding end_agreements kept
end_agreements-kept live [] pool = refl
end_agreements-kept live ((k, l) ∷ known) pool = elim (Bool-cases (is_among live k)) [
  | inl e ↦ rw (e, end_agreements) (ap (λ r. (k, l) ∷ r) (end_agreements-kept live known pool))
  | inr e ↦ rw (e, end_agreements) (end_agreements-kept live known _)
]

kept-IsConsistent :
    (live : List ℕ) (known : KnownAgreements) → IsConsistent known → IsConsistent (kept live known)
unfolding kept
kept-IsConsistent live known w = record {
  keyed = filter-All _ _ known w.keyed;
  distinct_keys = filter-Distinct _ _ known w.distinct_keys;
  distinct_providers = filter-Distinct _ _ known w.distinct_providers;
}

-- The entry shows the blocks of a record with its key among the ones read.
abbrev pub IsCurrent : List (Stored Agreement) → ℕ × Live → Type 0
IsCurrent [] p = ⊥
IsCurrent (r ∷ live) p =
    ((r.key ≡ p.0)
      × (r.created_at ≡ p.1.agreement.created_at)
      × (r.expires_at ≡ p.1.agreement.expires_at))
    ⊎ IsCurrent live p

abbrev IsShown : Stored Agreement → ℕ × Live → Type 0
IsShown r p =
    (r.key ≡ p.0)
    × (r.created_at ≡ p.1.agreement.created_at)
    × (r.expires_at ≡ p.1.agreement.expires_at)

IsShown-IsCurrent :
    (live : List (Stored Agreement))
    → All (λ r. (p : ℕ × Live) → IsShown r p → IsCurrent live p) live
IsShown-IsCurrent [] = tt
IsShown-IsCurrent (r ∷ live) =
    ((λ p h. inl h), All-weaken _ _ live (λ t f p h. inr (f p h)) (IsShown-IsCurrent live))

module _ (a : Agent) (now : ℕ) where
  module _ (whole : List (Stored Agreement)) where
    -- Current already, or still to be dated.
    abbrev IsDue : List (Stored Agreement) → ℕ × Live → Type 0
    IsDue rest p = IsCurrent whole p ⊎ Member p.0 (map (λ (r : Stored Agreement). r.key) rest)

    not-IsDue :
        (r : Stored Agreement) (rest : List (Stored Agreement)) (k : ℕ) (l : Live)
        → (k == r.key) ≡ false
        → IsDue (r ∷ rest) (k, l)
        → IsDue rest (k, l)
    not-IsDue r rest k l n (inl c) = inl c
    not-IsDue r rest k l n (inr (inl e)) = absurd (ground arith)
    not-IsDue r rest k l n (inr (inr m)) = inr m

    adopt-IsDue :
        (r : Stored Agreement) (rest : List (Stored Agreement)) (s : State)
        → ((p : ℕ × Live) → IsShown r p → IsCurrent whole p)
        → IsConsistent s.agreements
        → All (IsDue (r ∷ rest)) s.agreements
        → All (IsDue rest) (adopt a now r s).agreements
    adopt-IsDue r rest s shown w due =
        adopt-cases a now (All (IsDue rest)) r s
          (λ m.
            alter-All r.key (dated r) (IsDue (r ∷ rest)) (IsDue rest)
              (λ l h. inl (shown (r.key, dated r l) (refl, refl, refl))) (not-IsDue r rest)
              s.agreements w.distinct_keys due)
          (λ n m.
            untouched r.key (dated r) (IsDue (r ∷ rest)) (IsDue rest) (not-IsDue r rest)
              s.agreements n due)
          (λ l e n q.
            All-snoc (IsDue rest) s.agreements (r.key, l)
              (untouched r.key (dated r) (IsDue (r ∷ rest)) (IsDue rest) (not-IsDue r rest)
                s.agreements n due)
              (inl (
                shown (r.key, l)
                  (
                    refl,
                    ap (λ (t : Stored Agreement). t.created_at) (sym e),
                    ap (λ (t : Stored Agreement). t.expires_at) (sym e),
                  ))))

    adopt_agreements-IsCurrent :
        (rest : List (Stored Agreement)) (s : State)
        → All (λ r. (p : ℕ × Live) → IsShown r p → IsCurrent whole p) rest
        → IsConsistent s.agreements
        → All (IsDue rest) s.agreements
        → All (IsCurrent whole) (adopt_agreements a now rest s).agreements
    unfolding adopt_agreements
    adopt_agreements-IsCurrent [] s shown w due =
        All-weaken _ _ s.agreements (λ p d. elim d [ inl c ↦ c | inr m ↦ absurd m ]) due
    adopt_agreements-IsCurrent (r ∷ rest) s shown w due =
        adopt_agreements-IsCurrent rest (adopt a now r s) shown.1 (adopt-IsConsistent a now r s w)
          (adopt-IsDue r rest s shown.0 w due)

-- What was kept is still to be dated.
kept-IsDue :
    (live : List (Stored Agreement)) (known : KnownAgreements)
    → All
        (λ p. Member p.0 (map (λ (r : Stored Agreement). r.key) live))
        (kept (map (λ (r : Stored Agreement). r.key) live) known)
unfolding kept
kept-IsDue live known =
    All-weaken _ _ _ (λ p e. any-Member _ p.0 e)
      (filter-passes (λ (p : ℕ × Live). is_among (map (λ (r : Stored Agreement). r.key) live) p.0)
        known)

match_chain_lem :
    (a : Agent) (now : ℕ) (live : List (Stored Agreement)) (s : State)
    → IsConsistent s.agreements
    → let known = (match_chain a now live s).1.agreements in
      IsConsistent known × All (IsCurrent live) known × All (IsRepresented known) live
unfolding match_chain
match_chain_lem a now live s w =
    let r = end_agreements (map (λ (t : Stored Agreement). t.key) live) s.agreements s.pool in
    let same =
      end_agreements-kept (map (λ (t : Stored Agreement). t.key) live) s.agreements s.pool in
    let ordered : IsConsistent r.1.agreements =
      subst IsConsistent (sym same) (kept-IsConsistent _ _ w) in
    (
      adopt_agreements-IsConsistent a now live r.1 ordered,
      adopt_agreements-IsCurrent a now live live r.1 (IsShown-IsCurrent live) ordered (
          All-weaken _ _ _ (λ p m. inr m)
            (subst (All _) (sym same) (kept-IsDue live s.agreements))),
      adopt_agreements-IsRepresented a now live r.1,
    )

-- Memory is in order, every entry shows the blocks of a read agreement record with its key, and every
-- read record has its entry or its provider has another one.
abbrev pub IsMatched : List (Stored Agreement) → KnownAgreements → Type 0
IsMatched live known =
    IsConsistent known × All (IsCurrent live) known × All (IsRepresented known) live

-- After a reconcile that succeeded, from a memory in order: with the agreement records that were
-- read, memory is in order, every entry shows the blocks of a read record with its key, and every
-- read record has its entry or its provider has another one.
pub reconcile_agreements_lem :
    (a : Agent) (now moment : ℕ) (s : State) (r : ℕ × State × List Sent)
    → IsConsistent s.agreements
    → reconcile_agreements a now moment s ≡ ok r
    → (live : List (Stored Agreement)) × (read_agreements a r.0 (moment + 1) ≡ ok live)
      × IsMatched live r.1.agreements
unfolding reconcile_agreements
reconcile_agreements_lem a now moment s r w h = elim (Result-cases (a.reader.block_number moment)) [
  | inr e ↦ cc (rw (e.1, reconcile_agreements) at h)
  | inl e ↦ elim (Result-cases (read_agreements a e.0 (moment + 1))) [
    | inr f ↦ cc (rw (e.1, f.1, reconcile_agreements) at h)
    | inl f ↦
        let q = ok-eq (rw (e.1, f.1, reconcile_agreements) at h) in
        (
          f.0,
          subst (λ (t : ℕ × State × List Sent). read_agreements a t.0 (moment + 1) ≡ ok f.0) q f.1,
          subst (λ (t : ℕ × State × List Sent). IsMatched f.0 t.1.agreements) q
              (match_chain_lem a now f.0 s w),
        )
  ]
]
