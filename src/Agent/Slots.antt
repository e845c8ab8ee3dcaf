-- ===== src/Agent/Slots.antt =====
-- agent.rs `discover_offers`: what the acceptances leave of the slots, the providers and the ports.
use arkiv_community_lb.Base.Results.{Result, ok, err}
use arkiv_community_lb.Base.{
  ℕ, suc, ◌+◌, ◌-◌, ◌≤◌, max, ◌≡◌, refl, sym, subst, inl, inr, ◌⊎◌, Bool, true, false, ◌||◌, Option,
  none, List, [], ◌∷◌, length, leb, All, Member, arith, Bool-cases, Option-cases, if◌then◌else◌,
}
use arkiv_community_lb.Pool.Members.{Distinct}
use arkiv_community_lb.Chain.Records.{Agreement, Offer, Stored}
use arkiv_community_lb.Chain.Writer.{
  Created, WriteError, unresolved, refused, too_large, failed, unexpected, transport,
}
use arkiv_community_lb.Config.{remote_ports}
use arkiv_community_lb.Agent.Defs.{Live, KnownAgreements, State, Agent, OpenCounter, insert, alter}
use arkiv_community_lb.Agent.Known.{any-none, map-alter, alter-All}
use arkiv_community_lb.Agent.Reconcile.{providers, provider_of, enter}
use arkiv_community_lb.Agent.Adoption.{IsConsistent}
use arkiv_community_lb.Agent.Discovery.{
  continue, contains, pick_port, Turn, Next, go, stop, offers_of, ports_of, agreed,
  settle_acceptance, accept, take_up, turn, offers_loop, accept_offers,
}
use arkiv_community_lb.Agent.Ports.{
  insert-Member, insert-Distinct, insert-keys, length-insert, insert-All, length-alter,
  pick_port-grows, Member-All, pick_port-IsPicked,
}

-- Where a held port comes from: held before, or one of the configuration's that was not bound.
abbrev pub HasOrigin :
    Agent → (bound : (moment port : ℕ) → Bool) → (base : KnownAgreements) → ℕ → Type 0
HasOrigin a bound base x =
    Member x (ports_of base)
    ⊎ (Member x (remote_ports a.config) × (moment : ℕ) × (bound moment x ≡ false))

module _ (a : Agent) (now head : ℕ) where
  -- What an acceptance leaves: memory as it was, or with an entry of the agreement, and then the slot
  -- and the port are held.
  settle-cases :
      (P : Bool → KnownAgreements → Type 0) (moment : ℕ) (r : Agreement)
      (answer : Result WriteError Created) (s : State)
      → ((b : Bool) → P b s.agreements)
      → ((k : ℕ)
          → (l : Live) → (c : Option OpenCounter) → l.agreement.content ≡ r
          → l.agreement.key ≡ k
          → P true (alter k (λ (m : Live). record m { counter = c }) (insert k l s.agreements)))
      → P
          (settle_acceptance a now head moment r answer s).0
          (settle_acceptance a now head moment r answer s).1.agreements
  unfolding settle_acceptance enter
  settle-cases P moment r (err (unresolved tx es)) s same more = same true
  settle-cases P moment r (err (refused es)) s same more = same false
  settle-cases P moment r (err (too_large es)) s same more = same false
  settle-cases P moment r (err (failed es)) s same more = same false
  settle-cases P moment r (err (unexpected n t)) s same more = same false
  settle-cases P moment r (err transport) s same more = same false
  settle-cases P moment r (ok created) s same more =
      more created.entity_key
        (record {
          agreement = record {
            key = created.entity_key;
            creator = a.identity.address;
            created_at = head;
            expires_at = created.expires_at;
            content = r;
          };
          provider = s.pool.fresh;
          counter = none;
          admission_task = false;
        })
        _ refl refl

  module _ (bound : (moment port : ℕ) → Bool) (base : KnownAgreements) (free : ℕ) where
    pub record IsHeld (accepted : ℕ) (aps ups : List ℕ) (known : KnownAgreements) : Type 0 where
      pub consistent : IsConsistent known
      pub distinct_ports : Distinct (ports_of known)
      pub counted : length known ≤ length base + accepted
      pub within : accepted ≤ free
      pub in_providers : (x : ℕ) → Member x (providers known) → Member x aps
      pub in_ports : (x : ℕ) → Member x (ports_of known) → Member x ups
      pub origin : (x : ℕ) → Member x (ports_of known) → HasOrigin a bound base x

    more-IsHeld :
        (n : ℕ) (aps ups : List ℕ) (known : KnownAgreements) (p q : ℕ)
        → n + 1 ≤ free
        → IsHeld n aps ups known
        → IsHeld (suc n) (p ∷ aps) (q ∷ ups) known
    more-IsHeld n aps ups known p q h w = record {
      consistent = w.consistent;
      distinct_ports = w.distinct_ports;
      counted = omega (arith, w.counted);
      within = omega (arith, h);
      in_providers = λ x m. inr (w.in_providers x m);
      in_ports = λ x m. inr (w.in_ports x m);
      origin = w.origin;
    }

    module _ (n : ℕ) (aps ups : List ℕ) (known : KnownAgreements) (w : IsHeld n aps ups known) where
      entered-IsHeld :
          (k : ℕ) (l : Live)
          → n + 1 ≤ free
          → l.agreement.key ≡ k
          → ¬ (Member (provider_of l) aps)
          → ¬ (Member (l.agreement.content.remote_port) ups)
          → HasOrigin a bound base (l.agreement.content.remote_port)
          → IsHeld
              (suc n)
              (provider_of l ∷ aps)
              (l.agreement.content.remote_port ∷ ups)
              (insert k l known)
      entered-IsHeld k l h e np nq o = record {
        consistent = record {
          keyed = insert-All k l (λ p. p.0 ≡ p.1.agreement.key) known (sym e) w.consistent.keyed;
          distinct_keys = insert-keys k l known w.consistent.distinct_keys;
          distinct_providers =
              insert-Distinct k l (λ (p : ℕ × Live). provider_of p.1) known
                (λ m. np (w.in_providers (provider_of l) m)) w.consistent.distinct_providers;
        };
        distinct_ports =
            insert-Distinct k l (λ (p : ℕ × Live). p.1.agreement.content.remote_port) known
              (λ m. nq (w.in_ports (l.agreement.content.remote_port) m)) w.distinct_ports;
        counted = omega (arith, w.counted, length-insert k l known);
        within = omega (arith, h);
        in_providers = λ x m.
            elim (insert-Member k l (λ (p : ℕ × Live). provider_of p.1) known x m) [
              | inl q ↦ inl q
              | inr r ↦ inr (w.in_providers x r)
            ];
        in_ports = λ x m.
            elim (insert-Member k l (λ (p : ℕ × Live). p.1.agreement.content.remote_port) known x
              m) [ inl q ↦ inl q | inr r ↦ inr (w.in_ports x r) ];
        origin = λ x m.
            elim (insert-Member k l (λ (p : ℕ × Live). p.1.agreement.content.remote_port) known x
              m) [ inl q ↦ subst (HasOrigin a bound base) (sym q) o | inr r ↦ w.origin x r ];
      }

      -- A change of the counters alone.
      counter-IsHeld :
          (k : ℕ) (c : Option OpenCounter)
          → IsHeld n aps ups (alter k (λ (m : Live). record m { counter = c }) known)
      counter-IsHeld k c =
          let f = λ (m : Live). record m { counter = c } in
          let ks = map-alter k f (λ (p : ℕ × Live). p.0) (λ j l. refl) known in
          let ps = map-alter k f (λ (p : ℕ × Live). provider_of p.1) (λ j l. refl) known in
          let rs =
            map-alter k f (λ (p : ℕ × Live). p.1.agreement.content.remote_port) (λ j l. refl)
              known in
          record {
            consistent = record {
              keyed =
                  alter-All k f (λ p. p.0 ≡ p.1.agreement.key) (λ p. p.0 ≡ p.1.agreement.key)
                    (λ l e. e) (λ j l d e. e) known w.consistent.distinct_keys w.consistent.keyed;
              distinct_keys = subst Distinct (sym ks) w.consistent.distinct_keys;
              distinct_providers = subst Distinct (sym ps) w.consistent.distinct_providers;
            };
            distinct_ports = subst Distinct (sym rs) w.distinct_ports;
            counted = omega (arith, w.counted, length-alter k f known);
            within = w.within;
            in_providers = λ x m. w.in_providers x (subst (Member x) ps m);
            in_ports = λ x m. w.in_ports x (subst (Member x) rs m);
            origin = λ x m. w.origin x (subst (Member x) rs m);
          }

    abbrev pub IsHeldBy : Turn → Type 0
    IsHeldBy t = IsHeld t.accepted t.accepted_providers t.used_ports t.state.agreements

    -- The turn after an acceptance that gave this.
    abbrev after : Stored Offer → (port : ℕ) → Turn → Bool → State → Turn
    after offer port t b s =
        if b
        then record {
          accepted_providers = offer.creator ∷ t.accepted_providers;
          used_ports = port ∷ t.used_ports;
          accepted = suc t.accepted;
          moment = t.moment + 2;
          state = s;
        }
        else record t { moment = t.moment + 2; state = s }

    same-IsHeld :
        (offer : Stored Offer) (port : ℕ) (t : Turn) (b : Bool) (s : State)
        → IsHeldBy t
        → t.accepted + 1 ≤ free
        → s.agreements ≡ t.state.agreements
        → IsHeldBy (after offer port t b s)
    same-IsHeld offer port t true s w h e =
        subst (IsHeld (suc t.accepted) (offer.creator ∷ t.accepted_providers) (port ∷ t.used_ports))
          (sym e)
          (more-IsHeld t.accepted t.accepted_providers t.used_ports t.state.agreements offer.creator
            port h w)
    same-IsHeld offer port t false s w h e =
        subst (IsHeld t.accepted t.accepted_providers t.used_ports) (sym e) w

    take_up-IsHeld :
        (taken_offers : List ℕ) (offer : Stored Offer) (port : ℕ) (t : Turn)
        → IsHeldBy t
        → t.accepted + 1 ≤ free
        → ¬ (Member offer.creator t.accepted_providers)
        → ¬ (Member port t.used_ports)
        → HasOrigin a bound base port
        → IsHeldBy (take_up a now head bound free taken_offers offer port t)
    unfolding take_up accept
    take_up-IsHeld taken_offers offer port t w h np nq o =
        settle-cases
          (λ b known. (s : State) → s.agreements ≡ known → IsHeldBy (after offer port t b s))
          (suc t.moment) (agreed a now head offer port) _ t.state
          (λ b s e. same-IsHeld offer port t b s w h e)
          (λ k l c q e s same.
            let known = t.state.agreements in
            let entered =
              entered-IsHeld t.accepted t.accepted_providers t.used_ports known w k l h e
                (subst (λ (r : Agreement). ¬ (Member r.provider t.accepted_providers)) (sym q) np)
                (subst (λ (r : Agreement). ¬ (Member r.remote_port t.used_ports)) (sym q) nq)
                (subst (λ (r : Agreement). HasOrigin a bound base r.remote_port) (sym q) o) in
            let counted = counter-IsHeld _ _ _ _ entered k c in
            subst
              (IsHeld (suc t.accepted) (offer.creator ∷ t.accepted_providers) (port ∷ t.used_ports))
              (sym same)
              (subst
                (λ (r : Agreement).
                  IsHeld (suc t.accepted) (r.provider ∷ t.accepted_providers)
                    (r.remote_port ∷ t.used_ports)
                    (alter k (λ (m : Live). record m { counter = c }) (insert k l known)))
                q counted))
          (accept a now head t.moment offer port t.state).1 refl

    -- The turn that goes on or stops.
    abbrev next_turn : Next → Turn
    next_turn (go t) = t
    next_turn (stop t) = t

    -- More ports counted as used.
    used-IsHeld :
        (t : Turn) (ups : List ℕ)
        → ((x : ℕ) → Member x t.used_ports → Member x ups)
        → IsHeldBy t
        → IsHeldBy (record t { used_ports = ups })
    used-IsHeld t ups grown w = record {
      consistent = w.consistent;
      distinct_ports = w.distinct_ports;
      counted = w.counted;
      within = w.within;
      in_providers = w.in_providers;
      in_ports = λ x m. grown x (w.in_ports x m);
      origin = w.origin;
    }

    turn-IsHeld :
        (taken_offers : List ℕ) (offer : Stored Offer) (t : Turn)
        → IsHeldBy t
        → IsHeldBy (next_turn (turn a now head bound free taken_offers offer t))
    unfolding turn
    turn-IsHeld taken_offers offer t w =
        elim (Bool-cases (
          leb free t.accepted
          || (contains taken_offers offer.key || contains t.accepted_providers offer.creator))) [
            | inl e ↦ rw e w
            | inr e ↦
                let ps = remote_ports a.config in
                elim (Option-cases (pick_port (bound t.moment) ps t.used_ports).0) [
                  | inl none_left ↦
                      rw (e, none_left, turn)
                        (used-IsHeld t (pick_port (bound t.moment) ps t.used_ports).1
                          (pick_port-grows (bound t.moment) ps t.used_ports) w)
                  | inr (port, found) ↦
                      let p = pick_port-IsPicked (bound t.moment) ps t.used_ports port found in
                      let used = (pick_port (bound t.moment) ps t.used_ports).1 in
                      let new : ¬ (Member offer.creator t.accepted_providers) =
                        any-none t.accepted_providers offer.creator (ground arith) in
                      rw (e, found, turn)
                        (take_up-IsHeld taken_offers offer port (record t { used_ports = used })
                          (used-IsHeld t used p.grown w) (ground arith) new p.unused
                          (inr (p.candidate, t.moment, p.unbound)))
                ]
          ]

    continue-IsHeld :
        (rest : Turn → Turn) (n : Next)
        → ((t : Turn) → IsHeldBy t → IsHeldBy (rest t))
        → IsHeldBy (next_turn n)
        → IsHeldBy (continue rest n)
    continue-IsHeld rest (go t) f w = f t w
    continue-IsHeld rest (stop t) f w = w

    offers_loop-IsHeld :
        (taken_offers : List ℕ) (offers : List (Stored Offer)) (t : Turn)
        → IsHeldBy t
        → IsHeldBy (offers_loop a now head bound free taken_offers offers t)
    unfolding offers_loop
    offers_loop-IsHeld taken_offers [] t w = w
    offers_loop-IsHeld taken_offers (offer ∷ offers) t w =
        continue-IsHeld (offers_loop a now head bound free taken_offers offers)
          (turn a now head bound free taken_offers offer t) (offers_loop-IsHeld taken_offers offers)
          (turn-IsHeld taken_offers offer t w)

-- From a memory in order whose agreements have different ports, whatever the offers, the answers to
-- the writes and the ports that are bound: memory is in order after the acceptances, with one
-- agreement for a provider, and the ports are different; there are no more agreements than the cap,
-- or than before; and each port was held before or is one of the configuration's that was not bound
-- when it was asked for.
pub accept_offers_lem :
    (a : Agent) (now head : ℕ) (bound : (moment port : ℕ) → Bool) (moment : ℕ)
    (offers : List (Stored Offer)) (s : State)
    → IsConsistent s.agreements
    → Distinct (ports_of s.agreements)
    → let known = (accept_offers a now head bound moment offers s).agreements in
      IsConsistent known
      × Distinct (ports_of known)
      × (length known ≤ max (length s.agreements) a.config.max_providers)
      × All (HasOrigin a bound s.agreements) (ports_of known)
unfolding accept_offers
accept_offers_lem a now head bound moment offers s w d =
    let free = a.config.max_providers - length s.agreements in
    let t : Turn = record {
      accepted_providers = providers s.agreements;
      used_ports = ports_of s.agreements;
      accepted = 0;
      moment = moment;
      state = s;
    } in
    let start : IsHeldBy a now head bound s.agreements free t = record {
      consistent = w;
      distinct_ports = d;
      counted = omega arith;
      within = omega arith;
      in_providers = λ x m. m;
      in_ports = λ x m. m;
      origin = λ x m. inl m;
    } in
    let held =
      offers_loop-IsHeld a now head bound s.agreements free (offers_of s.agreements) offers t
        start in
    (
      held.consistent,
      held.distinct_ports,
      omega (arith, held.counted, held.within),
      Member-All _ _ held.origin,
    )
