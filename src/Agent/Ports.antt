-- ===== src/Agent/Ports.antt =====
-- agent.rs: insertions into the map of agreements, and the choice of a tunnel port.
use arkiv_community_lb.Base.{
  ℕ, suc, ◌≤◌, ◌≡◌, refl, sym, subst, inl, inr, ◌⊎◌, Bool, false, some, List, [], ◌∷◌, map, length,
  All, Member, arith, Bool-cases, some-eq, ◌==◌, ==_iff,
}
use arkiv_community_lb.Pool.Members.{Distinct}
use arkiv_community_lb.Agent.Defs.{Live, KnownAgreements, insert, alter, keys}
use arkiv_community_lb.Agent.Known.{any-none}
use arkiv_community_lb.Agent.Discovery.{contains, pick_port}

-- What an insertion does to a list of values of the entries.
module _ (key : ℕ) (l : Live) where
  pub insert-Member :
      (g : ℕ × Live → ℕ) (known : KnownAgreements) (x : ℕ)
      → Member x (map g (insert key l known))
      → (x ≡ g (key, l)) ⊎ Member x (map g known)
  unfolding insert
  insert-Member g [] x (inl e) = inl e
  insert-Member g [] x (inr m) = inr m
  insert-Member g ((k, o) ∷ known) x m = elim (Bool-cases (k == key)) [
    | inl e ↦ elim (rw (e, insert) at m) [ inl q ↦ inl q | inr r ↦ inr (inr r) ]
    | inr e ↦ elim (rw (e, insert) at m) [
      | inl q ↦ inr (inl q)
      | inr r ↦ elim (insert-Member g known x r) [ inl q ↦ inl q | inr n ↦ inr (inr n) ]
    ]
  ]

  pub insert-Distinct :
      (g : ℕ × Live → ℕ) (known : KnownAgreements)
      → ¬ (Member (g (key, l)) (map g known))
      → Distinct (map g known)
      → Distinct (map g (insert key l known))
  unfolding insert
  insert-Distinct g [] n d = ((λ m. m), tt)
  insert-Distinct g ((k, o) ∷ known) n d = elim (Bool-cases (k == key)) [
    | inl e ↦ rw (e, insert) ((λ m. n (inr m)), d.1)
    | inr e ↦
        rw (e, insert)
          (
            (λ m. elim (insert-Member g known (g (k, o)) m) [
              | inl q ↦ n (inl (sym q))
              | inr r ↦ d.0 r
            ]),
            insert-Distinct g known (λ m. n (inr m)) d.1,
          )
  ]

  -- The keys do not repeat, whether the key was there or not.
  pub insert-keys :
      (known : KnownAgreements) → Distinct (keys known) → Distinct (keys (insert key l known))
  unfolding insert
  insert-keys [] d = ((λ m. m), tt)
  insert-keys ((k, o) ∷ known) d = elim (Bool-cases (k == key)) [
    | inl e ↦ rw (e, insert) (subst (λ j. ¬ (Member j (keys known))) ((==_iff k key).0 e) d.0, d.1)
    | inr e ↦
        rw (e, insert)
          (
            (λ m. elim (insert-Member (λ (p : ℕ × Live). p.0) known k m) [
              | inl q ↦ absurd (ground arith)
              | inr r ↦ d.0 r
            ]),
            insert-keys known d.1,
          )
  ]

  pub length-insert : (known : KnownAgreements) → length (insert key l known) ≤ suc (length known)
  unfolding insert
  length-insert [] = omega arith
  length-insert ((k, o) ∷ known) = ground (arith, length-insert known)

  pub insert-All :
      (P : ℕ × Live → Type 0) (known : KnownAgreements)
      → P (key, l)
      → All P known
      → All P (insert key l known)
  unfolding insert
  insert-All P [] h a = (h, tt)
  insert-All P ((k, o) ∷ known) h a = elim (Bool-cases (k == key)) [
    | inl e ↦ rw (e, insert) (h, a.1)
    | inr e ↦ rw (e, insert) (a.0, insert-All P known h a.1)
  ]

pub length-alter :
    (key : ℕ) (f : Live → Live) (known : KnownAgreements)
    → length (alter key f known) ≡ length known
unfolding alter
length-alter key f [] = refl
length-alter key f ((k, o) ∷ known) = ground (arith, length-alter key f known)

-- A port that is picked is a candidate, free, and not bound; what is used only grows.
module _ (bound : ℕ → Bool) where
  pub record IsPicked (candidates used : List ℕ) (port : ℕ) (used_then : List ℕ) : Type 0 where
    pub candidate : Member port candidates
    pub unused : ¬ (Member port used_then)
    pub unbound : bound port ≡ false
    pub grown : (x : ℕ) → Member x used → Member x used_then

  pub pick_port-IsPicked :
      (ps used : List ℕ) (port : ℕ)
      → (pick_port bound ps used).0 ≡ some port
      → IsPicked ps used port (pick_port bound ps used).1
  unfolding pick_port
  pick_port-IsPicked [] used port h = cc
  pick_port-IsPicked (p ∷ ps) used port h = elim (Bool-cases (contains used p)) [
    | inl e ↦
        let r = pick_port-IsPicked ps used port (rw e at h) in
        rw e (record {
          candidate = inr r.candidate;
          unused = r.unused;
          unbound = r.unbound;
          grown = r.grown;
        })
    | inr e ↦ elim (Bool-cases (bound p)) [
      | inl b ↦
          let r = pick_port-IsPicked ps (p ∷ used) port (rw (e, b) at h) in
          rw (e, b)
            (record {
              candidate = inr r.candidate;
              unused = r.unused;
              unbound = r.unbound;
              grown = λ x m. r.grown x (inr m);
            })
      | inr b ↦
          let q : p ≡ port = some-eq (rw (e, b) at h) in
          rw (e, b)
            (record {
              candidate = inl (sym q);
              unused = subst (λ y. ¬ (Member y used)) q (any-none used p e);
              unbound = subst (λ y. bound y ≡ false) q b;
              grown = λ x m. m;
            })
    ]
  ]

  pub pick_port-grows :
      (ps used : List ℕ) (x : ℕ) → Member x used → Member x (pick_port bound ps used).1
  unfolding pick_port
  pick_port-grows [] used x m = m
  pick_port-grows (p ∷ ps) used x m = elim (Bool-cases (contains used p)) [
    | inl e ↦ rw e (pick_port-grows ps used x m)
    | inr e ↦ elim (Bool-cases (bound p)) [
      | inl b ↦ rw (e, b) (pick_port-grows ps (p ∷ used) x (inr m))
      | inr b ↦ rw (e, b) m
    ]
  ]

pub Member-All : (P : ℕ → Type 0) (xs : List ℕ) → ((x : ℕ) → Member x xs → P x) → All P xs
Member-All P [] f = tt
Member-All P (x ∷ xs) f = (f x (inl refl), Member-All P xs (λ y m. f y (inr m)))
