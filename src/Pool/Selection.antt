-- ===== src/Pool/Selection.antt =====
-- pool.rs: `next_eligible` under any interference of other selections.
use arkiv_community_lb.Base.{
  ℕ, zero, suc, ◌+◌, ◌%◌, ◌≡◌, ◌↔◌, refl, inl, inr, Bool, true, false, Option, none, some, List, [],
  ◌∷◌, length, get_elem?, find, any, Member, arith, Bool-cases, Option-cases, ◌==◌, u64_mod,
}
use arkiv_community_lb.Pool.Defs.{Pool, in_rotation, lap, next_of, rest_of, or_find, next_eligible}

-- What a selection may answer: a member that the test passes, or nothing.
abbrev pub Picks : (ℕ → Bool) → List ℕ → Option ℕ → Type 0
Picks el members none = Unit
Picks el members (some h) = Member h members × (el h ≡ true)

get_elem?-Member : (xs : List ℕ) (i h : ℕ) → get_elem? xs i ≡ some h → Member h xs
get_elem?-Member [] i h e = cc
get_elem?-Member (x ∷ xs) zero h e = inl (ground arith)
get_elem?-Member (x ∷ xs) (suc i) h e = inr (get_elem?-Member xs i h e)

Picks-cons :
    (el : ℕ → Bool) (x : ℕ) (xs : List ℕ) (o : Option ℕ) → Picks el xs o → Picks el (x ∷ xs) o
Picks-cons el x xs none h = tt
Picks-cons el x xs (some k) (m, e) = (inr m, e)

find-Picks : (el : ℕ → Bool) (xs : List ℕ) → Picks el xs (find el xs)
find-Picks el [] = tt
find-Picks el (x ∷ xs) = elim (Bool-cases (el x)) [
  | inl e ↦ rw e (inl refl, e)
  | inr e ↦ rw e (Picks-cons el x xs (find el xs) (find-Picks el xs))
]

lap-Picks :
    (el : ℕ → Bool) (xs : List ℕ) (n : ℕ) (others : List ℕ) (c : ℕ)
    → Picks el xs (lap el xs n others c).0
unfolding lap
lap-Picks el xs zero others c = tt
lap-Picks el xs (suc n) others c =
    let at = (c + next_of others) % u64_mod in
    let rest = lap-Picks el xs n (rest_of others) ((at + 1) % u64_mod) in
    elim (Option-cases (get_elem? xs (at % length xs))) [
      | inl e ↦ rw (e, lap) rest
      | inr (h, e) ↦ elim (Bool-cases (el h)) [
        | inl t ↦ rw (e, lap) (rw t (get_elem?-Member xs _ h e, t))
        | inr f ↦ rw (e, lap) (rw f rest)
      ]
    ]

or_find-Picks :
    (el : ℕ → Bool) (xs : List ℕ) (o q : Option ℕ)
    → Picks el xs o
    → Picks el xs q
    → Picks el xs (or_find o q)
or_find-Picks el xs none q a b = b
or_find-Picks el xs (some h) q a b = a

find-none : (el : ℕ → Bool) (xs : List ℕ) → find el xs ≡ none → any el xs ≡ false
find-none el [] h = refl
find-none el (x ∷ xs) h = ground (arith, find-none el xs)

or_find-none : (o q : Option ℕ) → or_find o q ≡ none → q ≡ none
or_find-none none q h = h
or_find-none (some a) q h = cc

-- Whatever other selections do to the cursor meanwhile, a selection answers a member in rotation
-- or nothing.
pub next_eligible-Picks :
    (others : List ℕ) (s : Pool) → Picks (in_rotation s) s.members (next_eligible others s).0
unfolding next_eligible
next_eligible-Picks others s = elim (Bool-cases (length s.members == 0)) [
  | inl e ↦ rw e tt
  | inr e ↦ rw e (
      or_find-Picks (in_rotation s) s.members _ _
        (lap-Picks (in_rotation s) s.members (length s.members) others s.cursor)
        (find-Picks (in_rotation s) s.members))
]

any-empty : (el : ℕ → Bool) (xs : List ℕ) → (length xs == 0) ≡ true → any el xs ≡ false
any-empty el [] h = refl
any-empty el (x ∷ xs) h = ground arith

pub next_eligible-none :
    (others : List ℕ) (s : Pool)
    → (next_eligible others s).0 ≡ none
    → any (in_rotation s) s.members ≡ false
unfolding next_eligible
next_eligible-none others s h = elim (Bool-cases (length s.members == 0)) [
  | inl e ↦ any-empty (in_rotation s) s.members e
  | inr e ↦ find-none (in_rotation s) s.members (or_find-none _ _ (rw e at h))
]

any-Member : (el : ℕ → Bool) (xs : List ℕ) (h : ℕ) → Member h xs → el h ≡ true → any el xs ≡ true
any-Member el [] h m e = elim m [ ]
any-Member el (x ∷ xs) h (inl q) e = ground arith
any-Member el (x ∷ xs) h (inr m) e = ground (arith, any-Member el xs h m e)

next_eligible-any :
    (others : List ℕ) (s : Pool)
    → any (in_rotation s) s.members ≡ false
    → (next_eligible others s).0 ≡ none
next_eligible-any others s h = elim (Option-cases (next_eligible others s).0) [
  | inl e ↦ e
  | inr (k, e) ↦
      let picked = rw e at (next_eligible-Picks others s) in
      cc (any-Member (in_rotation s) s.members k picked.0 picked.1)
]

-- Whatever other selections do to the cursor meanwhile, a selection comes back with nothing
-- exactly when no member is in rotation, and what it answers otherwise is such a member: a lone
-- eligible provider is always found.
pub next_eligible_finds :
    (others : List ℕ) (s : Pool)
    → (((next_eligible others s).0 ≡ none) ↔ (any (in_rotation s) s.members ≡ false))
      × Picks (in_rotation s) s.members (next_eligible others s).0
next_eligible_finds others s =
    ((next_eligible-none others s, next_eligible-any others s), next_eligible-Picks others s)
