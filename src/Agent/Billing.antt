-- ===== src/Agent/Billing.antt =====
-- agent.rs: what a flush bills is what leaves the entries.
use arkiv_community_lb.Base.Results.{Result-cases}
use arkiv_community_lb.Base.{
  ℕ, suc, ◌+◌, ◌-◌, ◌≤◌, ◌≡◌, refl, sym, ap, ◌∙◌, subst, inl, inr, Option, none, some, List, [],
  ◌∷◌, length, Member, arith, Bool-cases, Option-cases, ◌==◌, ==_iff, if◌then◌else◌, some-eq,
}
use arkiv_community_lb.Provider.Defs.{Provider, subtract_served}
use arkiv_community_lb.Pool.Defs.{Pool, modify}
use arkiv_community_lb.Pool.Members.{Distinct}
use arkiv_community_lb.Chain.Records.{CounterRecord, Stored}
use arkiv_community_lb.Agent.Defs.{
  Live, KnownAgreements, State, Agent, Flush, scheduled, stop, Closing, Landed, lookup, keys,
}
use arkiv_community_lb.Agent.Known.{map-alter}
use arkiv_community_lb.Agent.Counters.{
  CountersByAgreement, Counters, find_counter, reconcile_counters,
}
use arkiv_community_lb.Agent.Flushing.{
  closes, owed, counts_each, counts_batch, has_landed, end_period, ended_for, end_periods,
  send_flush, Flushed, flush_from, flush_with,
}
use arkiv_community_lb.Agent.Closings.{IsSent, counts_batch-IsWritten}
use arkiv_community_lb.Agent.Handles.{
  handles, served_at, other_handle, minus_zero, minus_minus, modify-served, modify-other, swapped,
  lookup-alter,
}

-- What the closes that landed took for an agreement.
abbrev pub billed : Landed → ℕ → List Closing → ℕ
billed landed key [] = 0
billed landed key (c ∷ closing) =
    (if c.agreement == key then if has_landed landed c then c.count else 0 else 0)
    + billed landed key closing

module _ (a : Agent) (landed : Landed) (head : ℕ) where
  -- The state after one close that landed.
  abbrev ended : Closing → Live → State → State
  ended c m s = (end_period a head c m s).1

  ended-handles :
      (c : Closing) (m : Live) (s : State) → handles (ended c m s).agreements ≡ handles s.agreements
  unfolding end_period
  ended-handles c m s =
      map-alter c.agreement (λ (o : Live). record o { counter = none })
        (λ (p : ℕ × Live). p.1.provider) (λ k l. refl) s.agreements

  -- What a close takes from an entry.
  abbrev taken : ℕ → Closing → ℕ
  taken k c = if c.agreement == k then if has_landed landed c then c.count else 0 else 0

  none-taken :
      (c : Closing) (s : State) (k : ℕ) (l : Live)
      → lookup k s.agreements ≡ some l
      → ended_for landed c s ≡ none
      → taken k c ≡ 0
  unfolding ended_for
  none-taken c s k l e n = elim (Bool-cases (c.agreement == k)) [
    | inr f ↦ rw f refl
    | inl t ↦ elim (Bool-cases (has_landed landed c)) [
      | inr g ↦ rw (t, g) refl
      | inl g ↦
          let gone =
            subst (λ j. lookup j s.agreements ≡ none) ((==_iff c.agreement k).0 t)
              (rw (g, ended_for) at n) in
          cc
    ]
  ]

  some-taken :
      (c : Closing) (s : State) (k : ℕ) (l m : Live)
      → Distinct (handles s.agreements)
      → lookup k s.agreements ≡ some l
      → ended_for landed c s ≡ some m
      → served_at (ended c m s) l.provider ≡ served_at s l.provider - taken k c
  unfolding ended_for end_period modify subtract_served
  some-taken c s k l m d e n = elim (Bool-cases (has_landed landed c)) [
    | inr g ↦ cc (rw (g, ended_for) at n)
    | inl g ↦
        let here = rw (g, ended_for) at n in
        elim (Bool-cases (c.agreement == k)) [
          | inl t ↦
              let q : l ≡ m = some-eq (
                sym e
                ∙ subst (λ j. lookup j s.agreements ≡ some m) ((==_iff c.agreement k).0 t) here) in
              subst (λ o. served_at (ended c o s) l.provider ≡ served_at s l.provider - taken k c) q
                (rw (t, g) (modify-served l.provider c.count s.pool))
          | inr f ↦
              let other = swapped _ _ (other_handle c.agreement k s.agreements m l d f here e) in
              rw f (
                ap (λ (p : Provider). p.served)
                  (modify-other l.provider m.provider (subtract_served c.count) s.pool other)
                ∙ minus_zero (served_at s l.provider))
        ]
  ]

  -- The closes that landed take their counts from the entries of their agreements, and from nothing
  -- else.
  end_periods-billed :
      (closing : List Closing) (s : State) (k : ℕ) (l : Live)
      → Distinct (handles s.agreements)
      → lookup k s.agreements ≡ some l
      → served_at (end_periods a closing landed head s).1 l.provider
        ≡ served_at s l.provider - billed landed k closing
  unfolding end_periods
  end_periods-billed [] s k l d e = minus_zero (served_at s l.provider)
  end_periods-billed (c ∷ closing) s k l d e = elim (Option-cases (ended_for landed c s)) [
    | inl n ↦
        let rest = end_periods-billed closing s k l d e in
        let zero_taken = none-taken c s k l e n in
        rw (n, end_periods) (rest ∙ omega (arith, zero_taken))
    | inr (m, n) ↦
        let here = some-taken c s k l m d e n in
        let (o, found, same) =
          lookup-alter c.agreement k (λ (o : Live). record o { counter = none }) s.agreements l
            (λ x. refl) e in
        let rest =
          end_periods-billed closing (ended c m s) k o
            (subst Distinct (sym (ended-handles c m s)) d) found in
        let there =
          subst
            (λ h.
              served_at (end_periods a closing landed head (ended c m s)).1 h
              ≡ served_at (ended c m s) h - billed landed k closing)
            same rest in
        rw (n, end_periods)
          (there
            ∙ ap (λ x. x - billed landed k closing) here
            ∙ minus_minus (served_at s l.provider) (taken k c) (billed landed k closing))
  ]

  closes-billed :
      (flush : Flush) (j : ℕ) (l : Live) (served : ℕ) (found : Option (Stored CounterRecord))
      (rest : List Closing) (k : ℕ)
      → billed landed k (closes (owed a head flush j l served found) rest)
        ≤ (if j == k then served else 0) + billed landed k rest
  unfolding owed
  closes-billed stop j l served none rest k = omega arith
  closes-billed scheduled j l served none rest k = omega arith
  closes-billed flush j l served (some s) rest k = ground arith

  -- At most what the entry of an agreement had served is billed to it.
  closing-none :
      (flush : Flush) (records : CountersByAgreement) (pool : Pool) (known : KnownAgreements)
      (k : ℕ)
      → ¬ (Member k (keys known))
      → billed landed k (counts_each a head flush records pool known).1 ≡ 0
  unfolding counts_each
  closing-none flush records pool [] k n = refl
  closing-none flush records pool ((j, l) ∷ known) k n =
      let served = (pool.entry l.provider).served in
      let rest = (counts_each a head flush records pool known).1 in
      let step = closes-billed flush j l served (find_counter j records) rest k in
      let none_left = closing-none flush records pool known k (λ m. n (inr m)) in
      elim (Bool-cases (j == k)) [
        | inl t ↦ absurd (n (inl (sym ((==_iff j k).0 t))))
        | inr f ↦ let bound = rw f at step in omega (arith, bound, none_left)
      ]

  closing-some :
      (flush : Flush) (records : CountersByAgreement) (pool : Pool) (known : KnownAgreements)
      (k : ℕ) (l : Live)
      → Distinct (keys known)
      → lookup k known ≡ some l
      → billed landed k (counts_each a head flush records pool known).1
        ≤ (pool.entry l.provider).served
  unfolding counts_each lookup
  closing-some flush records pool [] k l d e = cc
  closing-some flush records pool ((j, o) ∷ known) k l d e =
      let served = (pool.entry o.provider).served in
      let rest = (counts_each a head flush records pool known).1 in
      let step = closes-billed flush j o served (find_counter j records) rest k in
      elim (Bool-cases (j == k)) [
        | inl t ↦
            let none_left =
              closing-none flush records pool known k
                (subst (λ i. ¬ (Member i (keys known))) ((==_iff j k).0 t) d.0) in
            let bound = rw t at step in
            subst
              (λ (x : Live).
                billed landed k (counts_each a head flush records pool ((j, o) ∷ known)).1
                ≤ (pool.entry x.provider).served)
              (some-eq (rw (t, lookup) at e)) (omega (arith, bound, none_left))
        | inr f ↦
            let bound = rw f at step in
            let less = closing-some flush records pool known k l d.1 (rw (f, lookup) at e) in
            omega (arith, bound, less)
      ]

-- What a flush does to the entry of an agreement.
abbrev Conserves : (a : Agent) → (during : State → State) → Flushed a → Type 0
Conserves a during r =
    (k : ℕ) (l m : Live)
    → Distinct (keys r.reconciled.agreements)
    → lookup k r.reconciled.agreements ≡ some l
    → Distinct (handles (during r.reconciled).agreements)
    → lookup k (during r.reconciled).agreements ≡ some m
    → m.provider ≡ l.provider
    → served_at r.reconciled l.provider ≤ served_at (during r.reconciled) l.provider
    → (served_at r.after l.provider + billed r.landed k r.closing
        ≡ served_at (during r.reconciled) l.provider)
      × (billed r.landed k r.closing ≤ served_at r.reconciled l.provider)

flush_from-Conserves :
    (a : Agent) (counters : Counters) (head : ℕ) (flush : Flush) (moment : ℕ)
    (during : State → State) (s : State)
    → Conserves a during (flush_from a counters head flush moment during s)
unfolding flush_from counts_batch
flush_from-Conserves a counters head flush moment during s k l m d e dh em same grown =
    let b = counts_batch a counters head flush s in
    let landed = send_flush a moment b.0 in
    let bound =
      closing-some a landed head flush counters.open_records s.pool s.agreements k l d e in
    let left =
      subst
        (λ h.
          served_at (end_periods a b.1 landed head (during s)).1 h
          ≡ served_at (during s) h - billed landed k b.1)
        same (end_periods-billed a landed head b.1 (during s) k m dh em) in
    (omega (arith, left, bound, grown), bound)

flush_with-Conserves :
    (a : Agent) (flush : Flush) (moment : ℕ) (during : State → State) (s : State) (r : Flushed a)
    → flush_with a flush moment during s ≡ some r
    → Conserves a during r × IsSent a moment s r
unfolding flush_with flush_from
flush_with-Conserves a flush moment during s r h =
    elim (Result-cases (a.reader.block_number moment)) [
      | inr (_, x) ↦ cc (rw (x, flush_with) at h)
      | inl (head, x) ↦ elim (Result-cases (reconcile_counters a head (suc moment) s)) [
        | inr (_, y) ↦ cc (rw (x, y, flush_with) at h)
        | inl (c, y) ↦
            let at = moment + 3 + length s.agreements in
            subst (λ (r : Flushed a). Conserves a during r × IsSent a moment s r)
              (some-eq (rw (x, y, flush_with) at h))
              (
                flush_from-Conserves a c.0 head flush at during c.1,
                record {
                  head = head;
                  counters = c.0;
                  sent_at = at;
                  at_head = x;
                  read = y;
                  written = counts_batch-IsWritten a head c.0 flush c.1;
                  answered = refl;
                },
              )
      ]
    ]

-- A flush that was not skipped, with what other tasks do while its first batch is in flight. What
-- landed is what the chain answered to the batch, which for each close patches the record that the
-- flush read as open for the agreement: closed at the head, with the count of the close and its
-- other fields as they were. For an agreement in memory, whose entry is its own and stays so, and
-- whose served count does not shrink meanwhile, what is left in the entry and the counts of the
-- agreement's closes that landed are together what the entry had served, and those counts are no
-- more than it had served when the counts were taken.
pub flush_with-billed :
    (a : Agent) (flush : Flush) (moment : ℕ) (during : State → State) (s : State) (r : Flushed a)
    (k : ℕ) (l m : Live)
    → flush_with a flush moment during s ≡ some r
    → Distinct (keys r.reconciled.agreements)
    → lookup k r.reconciled.agreements ≡ some l
    → Distinct (handles (during r.reconciled).agreements)
    → lookup k (during r.reconciled).agreements ≡ some m
    → m.provider ≡ l.provider
    → served_at r.reconciled l.provider ≤ served_at (during r.reconciled) l.provider
    → (served_at r.after l.provider + billed r.landed k r.closing
        ≡ served_at (during r.reconciled) l.provider)
      × (billed r.landed k r.closing ≤ served_at r.reconciled l.provider)
      × IsSent a moment s r
flush_with-billed a flush moment during s r k l m h d e dh em same grown =
    let (conserves, sent) = flush_with-Conserves a flush moment during s r h in
    let (left, bound) = conserves k l m d e dh em same grown in (left, bound, sent)
