-- ===== src/Agent/Known.antt =====
-- agent.rs `KnownAgreements`: lookups, insertions and changes in place of the map.
use arkiv_community_lb.Base.{
  ℕ, ◌≡◌, refl, sym, ap, subst, inl, inr, Bool, true, false, none, some, List, [], ◌∷◌, ◌++◌, map,
  any, filter, All, Member, arith, Bool-cases, ◌==◌, ==_iff, some-eq,
}
use arkiv_community_lb.Pool.Members.{Distinct}
use arkiv_community_lb.Agent.Defs.{Live, KnownAgreements, lookup, insert, alter, keys}

pub any-Member : (xs : List ℕ) (k : ℕ) → any (λ j. j == k) xs ≡ true → Member k xs
any-Member [] k h = cc
any-Member (x ∷ xs) k h = elim (Bool-cases (x == k)) [
  | inl e ↦ inl (sym ((==_iff x k).0 e))
  | inr e ↦ inr (any-Member xs k (rw e at h))
]

pub any-none : (xs : List ℕ) (k : ℕ) → any (λ j. j == k) xs ≡ false → ¬ (Member k xs)
any-none [] k h m = m
any-none (x ∷ xs) k h (inl e) = ground arith
any-none (x ∷ xs) k h (inr m) = any-none xs k (ground arith) m

-- A part of a list, in its order, has no more members and no more repetitions.
module _ {A : Type 0} (f : A → ℕ) (p : A → Bool) where
  pub filter-Member : (xs : List A) (k : ℕ) → Member k (map f (filter p xs)) → Member k (map f xs)
  filter-Member [] k m = m
  filter-Member (x ∷ xs) k m = elim (Bool-cases (p x)) [
    | inl e ↦ elim (rw e at m) [ inl q ↦ inl q | inr r ↦ inr (filter-Member xs k r) ]
    | inr e ↦ inr (filter-Member xs k (rw e at m))
  ]

  pub filter-Distinct : (xs : List A) → Distinct (map f xs) → Distinct (map f (filter p xs))
  filter-Distinct [] d = tt
  filter-Distinct (x ∷ xs) d = elim (Bool-cases (p x)) [
    | inl e ↦ rw e ((λ m. d.0 (filter-Member xs (f x) m)), filter-Distinct xs d.1)
    | inr e ↦ rw e (filter-Distinct xs d.1)
  ]

pub filter-All :
    {A : Type 0} (p : A → Bool) (P : A → Type 0) (xs : List A) → All P xs → All P (filter p xs)
filter-All p P [] a = tt
filter-All p P (x ∷ xs) a = elim (Bool-cases (p x)) [
  | inl e ↦ rw e (a.0, filter-All p P xs a.1)
  | inr e ↦ rw e (filter-All p P xs a.1)
]

-- What is left has passed the test.
pub filter-passes : {A : Type 0} (p : A → Bool) (xs : List A) → All (λ x. p x ≡ true) (filter p xs)
filter-passes p [] = tt
filter-passes p (x ∷ xs) = elim (Bool-cases (p x)) [
  | inl e ↦ rw e (e, filter-passes p xs)
  | inr e ↦ rw e (filter-passes p xs)
]

pub map-snoc :
    {A B : Type 0} (f : A → B) (xs : List A) (x : A) → map f (xs ++ x ∷ []) ≡ map f xs ++ f x ∷ []
map-snoc f [] x = refl
map-snoc f (y ∷ xs) x = ap (λ l. f y ∷ l) (map-snoc f xs x)

pub All-snoc :
    {A : Type 0} (P : A → Type 0) (xs : List A) (x : A) → All P xs → P x → All P (xs ++ x ∷ [])
All-snoc P [] x a h = (h, tt)
All-snoc P (y ∷ xs) x a h = (a.0, All-snoc P xs x a.1 h)

pub Member-last : (xs : List ℕ) (x : ℕ) → Member x (xs ++ x ∷ [])
Member-last [] x = inl refl
Member-last (y ∷ xs) x = inr (Member-last xs x)

pub Member-before : (xs : List ℕ) (x k : ℕ) → Member k xs → Member k (xs ++ x ∷ [])
Member-before [] x k m = absurd m
Member-before (y ∷ xs) x k (inl e) = inl e
Member-before (y ∷ xs) x k (inr m) = inr (Member-before xs x k m)

pub lookup-none :
    (key : ℕ) (known : KnownAgreements) → lookup key known ≡ none → ¬ (Member key (keys known))
unfolding lookup
lookup-none key [] h m = m
lookup-none key ((k, l) ∷ known) h (inl e) = ground arith
lookup-none key ((k, l) ∷ known) h (inr m) = lookup-none key known (ground arith) m

pub lookup-some :
    (key : ℕ) (known : KnownAgreements) (l : Live)
    → lookup key known ≡ some l
    → Member key (keys known)
unfolding lookup
lookup-some key [] l h = cc
lookup-some key ((k, m) ∷ known) l h = elim (Bool-cases (k == key)) [
  | inl e ↦ inl (sym ((==_iff k key).0 e))
  | inr e ↦ inr (lookup-some key known l (rw (e, lookup) at h))
]

pub lookup-All :
    (P : ℕ × Live → Type 0) (key : ℕ) (known : KnownAgreements) (l : Live)
    → All P known
    → lookup key known ≡ some l
    → P (key, l)
unfolding lookup
lookup-All P key [] l all h = cc
lookup-All P key ((k, m) ∷ known) l all h = elim (Bool-cases (k == key)) [
  | inl e ↦
      let found : m ≡ l = some-eq (rw (e, lookup) at h) in
      subst (λ x. P (key, x)) found (subst (λ j. P (j, m)) ((==_iff k key).0 e) all.0)
  | inr e ↦ lookup-All P key known l all.1 (rw (e, lookup) at h)
]

pub insert-new :
    (key : ℕ) (l : Live) (known : KnownAgreements)
    → lookup key known ≡ none
    → insert key l known ≡ known ++ (key, l) ∷ []
unfolding insert lookup
insert-new key l [] h = refl
insert-new key l ((k, m) ∷ known) h = elim (Bool-cases (k == key)) [
  | inl e ↦ cc (rw (e, lookup) at h)
  | inr e ↦ rw (e, insert) (ap (λ r. (k, m) ∷ r) (insert-new key l known (rw (e, lookup) at h)))
]

-- A change in place leaves what it does not change.
module _ (key : ℕ) (f : Live → Live) where
  pub map-alter :
      (g : ℕ × Live → ℕ)
      → ((k : ℕ) → (l : Live) → g (k, f l) ≡ g (k, l))
      → (known : KnownAgreements) → map g (alter key f known) ≡ map g known
  unfolding alter
  map-alter g same [] = refl
  map-alter g same ((k, l) ∷ known) = elim (Bool-cases (k == key)) [
    | inl e ↦ rw (e, alter) (ap (λ n. n ∷ map g known) (same k l))
    | inr e ↦ rw (e, alter) (ap (λ r. g (k, l) ∷ r) (map-alter g same known))
  ]

  pub untouched :
      (P Q : ℕ × Live → Type 0)
      → ((k : ℕ) → (l : Live) → (k == key) ≡ false → P (k, l) → Q (k, l))
      → (known : KnownAgreements) → ¬ (Member key (keys known))
      → All P known
      → All Q known
  untouched P Q there [] n a = tt
  untouched P Q there ((k, l) ∷ known) n a = elim (Bool-cases (k == key)) [
    | inl e ↦ absurd (n (inl (sym ((==_iff k key).0 e))))
    | inr e ↦ (there k l e a.0, untouched P Q there known (λ m. n (inr m)) a.1)
  ]

  pub alter-All :
      (P Q : ℕ × Live → Type 0)
      → ((l : Live) → P (key, l) → Q (key, f l))
      → ((k : ℕ) → (l : Live) → (k == key) ≡ false → P (k, l) → Q (k, l))
      → (known : KnownAgreements) → Distinct (keys known)
      → All P known
      → All Q (alter key f known)
  unfolding alter
  alter-All P Q here there [] d a = tt
  alter-All P Q here there ((k, l) ∷ known) d a = elim (Bool-cases (k == key)) [
    | inl e ↦
        let q = (==_iff k key).0 e in
        rw (e, alter)
          (
            subst (λ j. Q (j, f l)) (sym q) (here l (subst (λ j. P (j, l)) q a.0)),
            untouched P Q there known (subst (λ j. ¬ (Member j (keys known))) q d.0) a.1,
          )
    | inr e ↦ rw (e, alter) (there k l e a.0, alter-All P Q here there known d.1 a.1)
  ]
