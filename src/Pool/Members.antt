-- ===== src/Pool/Members.antt =====
-- pool.rs: the membership over any sequence of changes to the pool.
use arkiv_community_lb.Base.{
  ℕ, suc, ◌<◌, ◌≡◌, ◌≢◌, refl, sym, subst, inl, inr, ◌⊎◌, Bool, String, Option, none, some, List,
  [], ◌∷◌, ◌++◌, length, All, Member, arith, Bool-cases, some-eq, ◌==◌,
}
use mathlib.Core.Path.{subst₂}
use arkiv_community_lb.Provider.Defs.{Provider}
use arkiv_community_lb.Pool.Defs.{
  Pool, modify, add, has_id, remove, remove_first, next_eligible, record_no_healthy_provider,
  record_timed_out, record_no_provider_answered,
}
use arkiv_community_lb.Pool.Selection.{Picks, next_eligible-Picks}

abbrev pub Distinct : List ℕ → Type 0
Distinct [] = Unit
Distinct (x ∷ xs) = (¬ (Member x xs)) × Distinct xs

-- The members are handles in use, each listed once.
pub record IsWellFormed (s : Pool) : Type 0 where
  pub in_use : All (λ h. h < s.fresh) s.members
  pub distinct : Distinct s.members

-- What the tasks of the load balancer do to the pool.
pub data Change (s : Pool) (t : Pool) : Type 0 where
  added : (p : Provider) → t ≡ (add p s).1 → Change s t
  removed : (id : String) → t ≡ (remove id s).1 → Change s t
  modified : (h : ℕ) (f : Provider → Provider) → t ≡ modify h f s → Change s t
  selected : (others : List ℕ) → t ≡ (next_eligible others s).1 → Change s t
  counted_unhealthy : t ≡ record_no_healthy_provider s → Change s t
  counted_timed_out : t ≡ record_timed_out s → Change s t
  counted_unanswered : t ≡ record_no_provider_answered s → Change s t

pub data Reach (s : Pool) : Pool → Type 0 where
  here : Reach s s
  next : {t u : Pool} → Reach s t → Change t u → Reach s u

All-below : (n : ℕ) (xs : List ℕ) → All (λ h. h < n) xs → ¬ (Member n xs)
All-below n [] a m = m
All-below n (x ∷ xs) a (inl e) = omega arith
All-below n (x ∷ xs) a (inr m) = All-below n xs a.1 m

All-suc : (n : ℕ) (xs : List ℕ) → All (λ h. h < n) xs → All (λ h. h < suc n) xs
All-suc n [] a = tt
All-suc n (x ∷ xs) a = (omega arith, All-suc n xs a.1)

All-snoc :
    (n : ℕ) (xs : List ℕ) (x : ℕ) → All (λ h. h < n) xs → x < n → All (λ h. h < n) (xs ++ x ∷ [])
All-snoc n [] x a h = (h, tt)
All-snoc n (y ∷ xs) x a h = (a.0, All-snoc n xs x a.1 h)

pub Member-snoc : (h x : ℕ) (xs : List ℕ) → Member h (xs ++ x ∷ []) → Member h xs ⊎ (h ≡ x)
Member-snoc h x [] (inl e) = inr e
Member-snoc h x [] (inr m) = elim m [ ]
Member-snoc h x (y ∷ xs) (inl e) = inl (inl e)
Member-snoc h x (y ∷ xs) (inr m) = elim (Member-snoc h x xs m) [
  | inl k ↦ inl (inr k)
  | inr e ↦ inr e
]

pub Distinct-snoc : (xs : List ℕ) (x : ℕ) → Distinct xs → ¬ (Member x xs) → Distinct (xs ++ x ∷ [])
Distinct-snoc [] x d n = ((λ m. m), tt)
Distinct-snoc (y ∷ xs) x d n = (
  (λ m. elim (Member-snoc y x xs m) [ inl k ↦ d.0 k | inr e ↦ n (inl (sym e)) ]),
  Distinct-snoc xs x d.1 (λ m. n (inr m)),
)

-- What `remove_first` takes out and what it leaves.
remove_first-Member :
    (p : ℕ → Bool) (xs : List ℕ) (h : ℕ) → Member h (remove_first p xs).1 → Member h xs
remove_first-Member p [] h m = m
remove_first-Member p (x ∷ xs) h m = elim (Bool-cases (p x)) [
  | inl e ↦ inr (rw e at m)
  | inr e ↦ elim (rw e at m) [ inl q ↦ inl q | inr k ↦ inr (remove_first-Member p xs h k) ]
]

remove_first-All :
    (p : ℕ → Bool) (n : ℕ) (xs : List ℕ)
    → All (λ h. h < n) xs
    → All (λ h. h < n) (remove_first p xs).1
remove_first-All p n [] a = tt
remove_first-All p n (x ∷ xs) a = ground (arith, remove_first-All p n xs a.1)

remove_first-Distinct : (p : ℕ → Bool) (xs : List ℕ) → Distinct xs → Distinct (remove_first p xs).1
remove_first-Distinct p [] d = tt
remove_first-Distinct p (x ∷ xs) d = elim (Bool-cases (p x)) [
  | inl e ↦ rw e d.1
  | inr e ↦ rw e ((λ m. d.0 (remove_first-Member p xs x m)), remove_first-Distinct p xs d.1)
]

remove_first-gone :
    (p : ℕ → Bool) (xs : List ℕ) (h : ℕ)
    → Distinct xs
    → (remove_first p xs).0 ≡ some h
    → Member h xs × (¬ (Member h (remove_first p xs).1))
remove_first-gone p [] h d e = cc
remove_first-gone p (x ∷ xs) h d e = elim (Bool-cases (p x)) [
  | inl t ↦
      let q : x ≡ h = some-eq (rw t at e) in rw t (inl (sym q), subst (λ k. ¬ (Member k xs)) q d.0)
  | inr f ↦
      let rest = remove_first-gone p xs h d.1 (rw f at e) in
      rw f (
        inr rest.0,
        λ m. elim m [ inl q ↦ d.0 (subst (λ k. Member k xs) q rest.0) | inr k ↦ rest.1 k ],
      )
]

All-Member : (n : ℕ) (xs : List ℕ) (h : ℕ) → All (λ k. k < n) xs → Member h xs → h < n
All-Member n [] h a m = absurd m
All-Member n (x ∷ xs) h a (inl e) = omega arith
All-Member n (x ∷ xs) h a (inr m) = All-Member n xs h a.1 m

-- A selection moves the cursor alone.
pub next_eligible-keeps :
    (others : List ℕ) (s : Pool)
    → let t = (next_eligible others s).1 in
      (t.members ≡ s.members)
      × (t.fresh ≡ s.fresh)
      × (t.entry ≡ s.entry)
      × (t.lb_outcomes ≡ s.lb_outcomes)
unfolding next_eligible
next_eligible-keeps others s = elim (Bool-cases (length s.members == 0)) [
  | inl e ↦ rw e (refl, refl, refl, refl)
  | inr e ↦ rw e (refl, refl, refl, refl)
]

add-IsWellFormed : (p : Provider) (s : Pool) → IsWellFormed s → IsWellFormed (add p s).1
unfolding add
add-IsWellFormed p s w = record {
  in_use =
      All-snoc (suc s.fresh) s.members s.fresh (All-suc s.fresh s.members w.in_use) (omega arith);
  distinct = Distinct-snoc s.members s.fresh w.distinct (All-below s.fresh s.members w.in_use);
}

remove-IsWellFormed : (id : String) (s : Pool) → IsWellFormed s → IsWellFormed (remove id s).1
unfolding remove
remove-IsWellFormed id s w = record {
  in_use = remove_first-All (has_id id s) s.fresh s.members w.in_use;
  distinct = remove_first-Distinct (has_id id s) s.members w.distinct;
}

IsWellFormed-same :
    (s t : Pool) → t.members ≡ s.members → t.fresh ≡ s.fresh → IsWellFormed s → IsWellFormed t
IsWellFormed-same s t m f w = record {
  in_use = subst₂ (λ n xs. All (λ h. h < n) xs) (sym f) (sym m) w.in_use;
  distinct = subst Distinct (sym m) w.distinct;
}

pub Change-IsWellFormed : {s t : Pool} → Change s t → IsWellFormed s → IsWellFormed t
unfolding modify record_no_healthy_provider record_timed_out record_no_provider_answered
Change-IsWellFormed {s} (added p e) w = rw e (add-IsWellFormed p s w)
Change-IsWellFormed {s} (removed id e) w = rw e (remove-IsWellFormed id s w)
Change-IsWellFormed {s} (modified h f e) w = rw e (IsWellFormed-same s (modify h f s) refl refl w)
Change-IsWellFormed {s} (selected others e) w =
    let kept = next_eligible-keeps others s in rw e (IsWellFormed-same s _ kept.0 kept.1 w)
Change-IsWellFormed {s} (counted_unhealthy e) w =
    rw e (IsWellFormed-same s (record_no_healthy_provider s) refl refl w)
Change-IsWellFormed {s} (counted_timed_out e) w =
    rw e (IsWellFormed-same s (record_timed_out s) refl refl w)
Change-IsWellFormed {s} (counted_unanswered e) w =
    rw e (IsWellFormed-same s (record_no_provider_answered s) refl refl w)

-- Whatever changes the pool goes through, removals and additions by other tasks among them, its
-- members stay entries in use, each listed once, if they were so before.
pub Reach-IsWellFormed : {s t : Pool} → IsWellFormed s → Reach s t → IsWellFormed t
Reach-IsWellFormed w here = w
Reach-IsWellFormed w (next r c) = Change-IsWellFormed c (Reach-IsWellFormed w r)

-- An entry in use that is no member.
abbrev pub IsGone : ℕ → Pool → Type 0
IsGone h s = (¬ (Member h s.members)) × (h < s.fresh)

remove-IsGone :
    (id : String) (s : Pool) (h : ℕ)
    → IsWellFormed s
    → (remove id s).0 ≡ some h
    → IsGone h (remove id s).1
unfolding remove
remove-IsGone id s h w e =
    let (was, gone) = remove_first-gone (has_id id s) s.members h w.distinct e in
    (gone, All-Member s.fresh s.members h w.in_use was)

IsGone-same :
    (h : ℕ) (s t : Pool) → t.members ≡ s.members → t.fresh ≡ s.fresh → IsGone h s → IsGone h t
IsGone-same h s t m f g = (rw m g.0, rw f g.1)

Change-IsGone : {s t : Pool} (h : ℕ) → Change s t → IsGone h s → IsGone h t
unfolding add remove modify record_no_healthy_provider record_timed_out record_no_provider_answered
Change-IsGone {s} h (added p e) g = rw e (
  (λ m. elim (Member-snoc h s.fresh s.members m) [ inl k ↦ g.0 k | inr q ↦ omega arith ]),
  omega arith,
)
Change-IsGone {s} h (removed id e) g =
    rw e ((λ m. g.0 (remove_first-Member (has_id id s) s.members h m)), g.1)
Change-IsGone {s} h (modified k f e) g = rw e g
Change-IsGone {s} h (selected others e) g =
    let kept = next_eligible-keeps others s in
    rw e (IsGone-same h s (next_eligible others s).1 kept.0 kept.1 g)
Change-IsGone h (counted_unhealthy e) g = rw e g
Change-IsGone h (counted_timed_out e) g = rw e g
Change-IsGone h (counted_unanswered e) g = rw e g

Reach-IsGone : {s t : Pool} (h : ℕ) → IsGone h s → Reach s t → IsGone h t
Reach-IsGone h g here = g
Reach-IsGone h g (next r c) = Change-IsGone h c (Reach-IsGone h g r)

not-Picks :
    (el : ℕ → Bool) (xs : List ℕ) (o : Option ℕ) (h : ℕ)
    → Picks el xs o
    → ¬ (Member h xs)
    → o ≢ some h
not-Picks el xs none h p n e = cc
not-Picks el xs (some k) h p n e = n (subst (λ x. Member x xs) (some-eq e) p.0)

-- Once a removal has returned an entry, no later selection picks that entry, whatever changes the
-- pool goes through in between and whatever other selections do meanwhile; the pool before the
-- removal is well formed.
pub removed_never_selected :
    (id : String) (s t : Pool) (h : ℕ) (others : List ℕ)
    → IsWellFormed s
    → (remove id s).0 ≡ some h
    → Reach (remove id s).1 t
    → (next_eligible others t).0 ≢ some h
removed_never_selected id s t h others w e r =
    not-Picks _ _ _ h (next_eligible-Picks others t) (Reach-IsGone h (remove-IsGone id s h w e) r).0
