-- ===== src/Agent/Handles.antt =====
-- agent.rs: the pool entries that the agreements in memory hold.
use arkiv_community_lb.Base.{
  ℕ, ◌+◌, ◌-◌, ◌≡◌, refl, sym, ap, ◌∙◌, subst, inl, inr, true, false, some, List, [], ◌∷◌, map,
  Member, arith, Bool-cases, ◌==◌, ==_iff, some-eq,
}
use arkiv_community_lb.Provider.Defs.{Provider, subtract_served}
use arkiv_community_lb.Pool.Defs.{Pool, modify}
use arkiv_community_lb.Pool.Members.{Distinct}
use arkiv_community_lb.Agent.Defs.{Live, KnownAgreements, State, lookup, alter}

abbrev pub handles : KnownAgreements → List ℕ
handles known = map (λ (p : ℕ × Live). p.1.provider) known

abbrev pub served_at : State → ℕ → ℕ
served_at s h = (s.pool.entry h).served

pub lookup-handle :
    (key : ℕ) (known : KnownAgreements) (l : Live)
    → lookup key known ≡ some l
    → Member l.provider (handles known)
unfolding lookup
lookup-handle key [] l e = cc
lookup-handle key ((k, m) ∷ known) l e = elim (Bool-cases (k == key)) [
  | inl t ↦ inl (ap (λ (o : Live). o.provider) (sym (some-eq (rw (t, lookup) at e))))
  | inr f ↦ inr (lookup-handle key known l (rw (f, lookup) at e))
]

pub apart : (x y : ℕ) (xs : List ℕ) → ¬ (Member x xs) → Member y xs → (x == y) ≡ false
apart x y xs n m = elim (Bool-cases (x == y)) [
  | inl e ↦ absurd (n (subst (λ z. Member z xs) (sym ((==_iff x y).0 e)) m))
  | inr e ↦ e
]

pub equal_self : (x : ℕ) → (x == x) ≡ true
equal_self x = ground arith

pub minus_zero : (x : ℕ) → x ≡ x - 0
minus_zero x = omega arith

pub minus_minus : (x y z : ℕ) → x - y - z ≡ x - (y + z)
minus_minus x y z = omega arith

pub modify-served :
    (h n : ℕ) (pool : Pool)
    → ((modify h (subtract_served n) pool).entry h).served ≡ (pool.entry h).served - n
unfolding modify subtract_served
modify-served h n pool = rw (equal_self h) refl

pub modify-other :
    (g h : ℕ) (f : Provider → Provider) (pool : Pool)
    → (g == h) ≡ false
    → (modify h f pool).entry g ≡ pool.entry g
unfolding modify
modify-other g h f pool e = rw e refl

pub swapped : (x y : ℕ) → (x == y) ≡ false → (y == x) ≡ false
swapped x y h = ground arith

-- Different agreements have different entries.
pub other_handle :
    (j k : ℕ) (known : KnownAgreements) (l m : Live)
    → Distinct (handles known)
    → (j == k) ≡ false
    → lookup j known ≡ some l
    → lookup k known ≡ some m
    → (l.provider == m.provider) ≡ false
unfolding lookup
other_handle j k [] l m d n e f = cc
other_handle j k ((i, o) ∷ known) l m d n e f = elim (Bool-cases (i == j)) [
  | inl p ↦ elim (Bool-cases (i == k)) [
    | inl q ↦ absurd (ground arith)
    | inr q ↦
        subst (λ (x : Live). (x.provider == m.provider) ≡ false) (some-eq (rw (p, lookup) at e))
          (apart o.provider m.provider (handles known) d.0
            (lookup-handle k known m (rw (q, lookup) at f)))
  ]
  | inr p ↦ elim (Bool-cases (i == k)) [
    | inl q ↦
        subst (λ (x : Live). (l.provider == x.provider) ≡ false) (some-eq (rw (q, lookup) at f))
          (swapped _ _ (
            apart o.provider l.provider (handles known) d.0
              (lookup-handle j known l (rw (p, lookup) at e))))
    | inr q ↦ other_handle j k known l m d.1 n (rw (p, lookup) at e) (rw (q, lookup) at f)
  ]
]

-- A change in place keeps the lookups, and what the change keeps of them.
pub lookup-alter :
    (j k : ℕ) (f : Live → Live) (known : KnownAgreements) (l : Live)
    → ((m : Live) → (f m).provider ≡ m.provider)
    → lookup k known ≡ some l
    → (m : Live) × (lookup k (alter j f known) ≡ some m) × (m.provider ≡ l.provider)
unfolding lookup alter
lookup-alter j k f [] l same e = cc
lookup-alter j k f ((i, o) ∷ known) l same e = elim (Bool-cases (i == k)) [
  | inl p ↦
      let q = some-eq (rw (p, lookup) at e) in
      elim (Bool-cases (i == j)) [
        | inl r ↦ (f o, rw (r, p, alter, lookup) refl, same o ∙ ap (λ (x : Live). x.provider) q)
        | inr r ↦ (o, rw (r, p, alter, lookup) refl, ap (λ (x : Live). x.provider) q)
      ]
  | inr p ↦ elim (Bool-cases (i == j)) [
    | inl r ↦ (l, rw (r, p, alter, lookup) (rw (p, lookup) at e), refl)
    | inr r ↦
        let t = lookup-alter j k f known l same (rw (p, lookup) at e) in
        (t.0, rw (r, p, alter, lookup) t.1, t.2)
  ]
]
