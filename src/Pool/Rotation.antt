-- ===== src/Pool/Rotation.antt =====
-- pool.rs: the round robin of `next_eligible` with no other selection in between.
use arkiv_community_lb.Base.{
  ℕ, zero, suc, ◌+◌, ◌-◌, ◌%◌, ◌<◌, ◌≤◌, ◌≡◌, refl, sym, ap, ◌∙◌, inl, inr, Bool, true, false,
  Option, none, some, List, [], ◌∷◌, length, get_elem?, filter, any, arith, Bool-cases, u64_mod,
}
use arkiv_community_lb.Pool.Defs.{lap}

-- The `j` members from cursor `c` on, round and round.
abbrev pub window : List ℕ → ℕ → ℕ → List ℕ
window xs c zero = []
window xs c (suc j) = elim (get_elem? xs (c % length xs)) [
  | none ↦ []
  | some h ↦ h ∷ window xs (c + 1) j
]

get_elem?_below : (xs : List ℕ) (i : ℕ) → i < length xs → (h : ℕ) × (get_elem? xs i ≡ some h)
get_elem?_below [] i h = elim h [ ]
get_elem?_below (x ∷ xs) zero h = (x, refl)
get_elem?_below (x ∷ xs) (suc i) h = get_elem?_below xs i (omega arith)

filter-eq_nil : (el : ℕ → Bool) (xs : List ℕ) → any el xs ≡ false → filter el xs ≡ []
filter-eq_nil el [] h = refl
filter-eq_nil el (x ∷ xs) h = ground (arith, filter-eq_nil el xs)

-- What a selection answered, and the selections after it.
abbrev pub continue : Option ℕ × ℕ → (ℕ → List ℕ) → List ℕ
continue (none, c) more = []
continue (some h, c) more = h ∷ more c

-- The member under the cursor.
pub member_at :
    (xs : List ℕ) (c : ℕ) → 0 < length xs → (h : ℕ) × (get_elem? xs (c % length xs) ≡ some h)
member_at xs c n = get_elem?_below xs (c % length xs) (omega arith)

pub window-suc :
    (xs : List ℕ) (c j h : ℕ)
    → get_elem? xs (c % length xs) ≡ some h
    → window xs c (suc j) ≡ h ∷ window xs (c + 1) j
window-suc xs c j h e = rw (e, window)

module _ (el : ℕ → Bool) (xs : List ℕ) where
  lap_hit :
      (r c h : ℕ)
      → c + 1 < u64_mod
      → get_elem? xs (c % length xs) ≡ some h
      → el h ≡ true
      → lap el xs (suc r) [] c ≡ (some h, c + 1)
  unfolding lap
  lap_hit r c h b e t =
      let here : (c + 0) % u64_mod ≡ c = omega arith in
      let there : ((c + 0) % u64_mod + 1) % u64_mod ≡ c + 1 = omega arith in
      rw (here, e, t, there, lap)

  lap_miss :
      (r c h : ℕ)
      → c + 1 < u64_mod
      → get_elem? xs (c % length xs) ≡ some h
      → el h ≡ false
      → lap el xs (suc r) [] c ≡ lap el xs r [] (c + 1)
  unfolding lap
  lap_miss r c h b e t =
      let here : (c + 0) % u64_mod ≡ c = omega arith in
      let there : ((c + 0) % u64_mod + 1) % u64_mod ≡ c + 1 = omega arith in
      rw (here, e, t, there, lap)

  lap_later_hit :
      (r c j h : ℕ)
      → c + 1 < u64_mod
      → get_elem? xs (c % length xs) ≡ some h
      → el h ≡ true
      → suc j ≤ r
      → lap el xs r [] c ≡ (some h, c + 1)
  lap_later_hit zero c j h b e t q = elim q [ ]
  lap_later_hit (suc r) c j h b e t q = lap_hit r c h b e t

  lap_later_miss :
      (r c j h : ℕ)
      → c + 1 < u64_mod
      → get_elem? xs (c % length xs) ≡ some h
      → el h ≡ false
      → suc j ≤ r
      → lap el xs r [] c ≡ lap el xs (r - 1) [] (c + 1)
  lap_later_miss zero c j h b e t q = elim q [ ]
  lap_later_miss (suc r) c j h b e t q =
      let same : suc r - 1 ≡ r = omega arith in rw same (lap_miss r c h b e t)

  -- A lap finds what a window no longer than itself holds, and stops there.
  lap_finds :
      (j c : ℕ)
      → 0 < length xs
      → c + j < u64_mod
      → any el (window xs c j) ≡ true
      → (h : ℕ) × (c' : ℕ) × ((r : ℕ) → j ≤ r → lap el xs r [] c ≡ (some h, c'))
  lap_finds zero c n b a = cc
  lap_finds (suc j) c n b a =
      let (h, e) = member_at xs c n in
      elim (Bool-cases (el h)) [
        | inl t ↦ (h, c + 1, λ r q. lap_later_hit r c j h (omega arith) e t q)
        | inr f ↦
            let later = rw (window-suc xs c j h e, f) at a in
            let (k, c', found) = lap_finds j (c + 1) n (omega arith) later in
            (k, c', λ r q. lap_later_miss r c j h (omega arith) e f q ∙ found (r - 1) (omega arith))
      ]

  -- The selections one after another, from a cursor.
  unfoldable pub laps : ℕ → ℕ → List ℕ
  laps zero c = []
  laps (suc k) c = continue (lap el xs (length xs) [] c) (laps k)

  pub laps_hit :
      (k c c' h : ℕ) → lap el xs (length xs) [] c ≡ (some h, c') → laps (suc k) c ≡ h ∷ laps k c'
  unfolding laps
  laps_hit k c c' h e = rw e

  pub laps_miss : (k c : ℕ) → (lap el xs (length xs) [] c).0 ≡ none → laps (suc k) c ≡ []
  unfolding laps
  laps_miss k c e = rw (e, continue)

  laps_cong :
      (k c d : ℕ) → lap el xs (length xs) [] c ≡ lap el xs (length xs) [] d → laps k c ≡ laps k d
  unfolding laps
  laps_cong zero c d e = refl
  laps_cong (suc k) c d e = rw e

  -- A member out of rotation is passed over.
  laps_skip :
      (j c : ℕ)
      → 0 < length xs
      → suc j ≤ length xs
      → c + suc j < u64_mod
      → lap el xs (length xs) [] c ≡ lap el xs (length xs - 1) [] (c + 1)
      → let k = length (filter el (window xs (c + 1) j)) in laps k c ≡ laps k (c + 1)
  laps_skip j c n q b skipped = elim (Bool-cases (any el (window xs (c + 1) j))) [
    | inl some_left ↦
        let (k, c', found) = lap_finds j (c + 1) n (omega arith) some_left in
        laps_cong _ c (c + 1)
          (skipped ∙ found (length xs - 1) (omega arith) ∙ sym (found (length xs) (omega arith)))
    | inr none_left ↦ unfold laps in rw (filter-eq_nil el (window xs (c + 1) j) none_left)
  ]

  pub laps-window :
      (j c : ℕ)
      → 0 < length xs
      → j ≤ length xs
      → c + j < u64_mod
      → laps (length (filter el (window xs c j))) c ≡ filter el (window xs c j)
  laps-window zero c n q b = unfold laps in refl
  laps-window (suc j) c n q b =
      let (h, e) = member_at xs c n in
      let rest = laps-window j (c + 1) n (omega arith) (omega arith) in
      elim (Bool-cases (el h)) [
        | inl t ↦
            let first = lap_later_hit (length xs) c j h (omega arith) e t q in
            rw (window-suc xs c j h e, t) (laps_hit _ c (c + 1) h first ∙ ap (◌∷◌ h) rest)
        | inr f ↦
            let skipped = lap_later_miss (length xs) c j h (omega arith) e f q in
            rw (window-suc xs c j h e, f) (laps_skip j c n q b skipped ∙ rest)
      ]
