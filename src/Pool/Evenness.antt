-- ===== src/Pool/Evenness.antt =====
-- pool.rs: a lap of selections serves every provider in rotation once, in the members' order.
use arkiv_community_lb.Base.{
  ℕ, zero, suc, ◌+◌, ◌-◌, ◌%◌, ◌<◌, ◌≤◌, ◌≡◌, refl, ap, ◌∙◌, inl, inr, false, Option, none, some,
  List, [], ◌∷◌, ◌++◌, length, get_elem?, take, drop, filter, arith, Option-cases, ◌==◌, u64_mod,
}
use mathlib.Core.Path.{ap₂}
use arkiv_community_lb.Pool.Defs.{Pool, in_rotation, lap, next_eligible}
use arkiv_community_lb.Pool.Rotation.{
  window, window-suc, member_at, laps, laps_hit, laps_miss, laps-window,
}

length-drop : (n : ℕ) (xs : List ℕ) → length (drop n xs) ≡ length xs - n
length-drop zero xs = omega arith
length-drop (suc n) [] = omega arith
length-drop (suc n) (x ∷ xs) = omega (arith, length-drop n xs)

take_all : (n : ℕ) (xs : List ℕ) → length xs ≤ n → take n xs ≡ xs
take_all zero [] h = refl
take_all zero (x ∷ xs) h = elim h [ ]
take_all (suc n) [] h = refl
take_all (suc n) (x ∷ xs) h = ap (◌∷◌ x) (take_all n xs (omega arith))

drop-get_elem? : (xs : List ℕ) (r h : ℕ) → get_elem? xs r ≡ some h → drop r xs ≡ h ∷ drop (suc r) xs
drop-get_elem? [] r h e = cc
drop-get_elem? (x ∷ xs) zero h e = cc
drop-get_elem? (x ∷ xs) (suc r) h e = drop-get_elem? xs r h e

mod_step : (c n : ℕ) → c % n + 1 < n → (c + 1) % n ≡ suc (c % n)
mod_step c n h = grind arith

mod_wrap : (c n : ℕ) → 0 < n → (c + (n - c % n)) % n ≡ 0
mod_wrap c n h = grind arith

window-take :
    (xs : List ℕ) (j c : ℕ)
    → 0 < length xs
    → c % length xs + j ≤ length xs
    → window xs c j ≡ take j (drop (c % length xs) xs)
window-take xs zero c n h = refl
window-take xs (suc zero) c n h =
    let (k, e) = member_at xs c n in
    rw (window-suc xs c 0 k e, drop-get_elem? xs (c % length xs) k e)
window-take xs (suc (suc j)) c n h =
    let (k, e) = member_at xs c n in
    let step = mod_step c (length xs) (omega arith) in
    let rest = window-take xs (suc j) (c + 1) n (omega arith) in
    rw (window-suc xs c (suc j) k e, drop-get_elem? xs (c % length xs) k e)
      (ap (◌∷◌ k) (rw step at rest))

window-append :
    (xs : List ℕ) (i j c : ℕ)
    → 0 < length xs
    → window xs c (i + j) ≡ window xs c i ++ window xs (c + i) j
window-append xs zero j c n =
    let a : 0 + j ≡ j = omega arith in let b : c + 0 ≡ c = omega arith in rw (a, b)
window-append xs (suc i) j c n =
    let (k, e) = member_at xs c n in
    let a : suc i + j ≡ suc (i + j) = omega arith in
    let b : c + suc i ≡ c + 1 + i = omega arith in
    rw (a, b, window-suc xs c (i + j) k e, window-suc xs c i k e)
      (ap (◌∷◌ k) (window-append xs i j (c + 1) n))

-- The members in the order in which a lap from the cursor meets them.
abbrev pub lap_order : Pool → List ℕ
lap_order s = let r = s.cursor % length s.members in drop r s.members ++ take r s.members

window_lap :
    (xs : List ℕ) (c : ℕ)
    → 0 < length xs
    → window xs c (length xs) ≡ drop (c % length xs) xs ++ take (c % length xs) xs
window_lap xs c n =
    let r = c % length xs in
    let split : length xs ≡ (length xs - r) + r = omega arith in
    let wrap = mod_wrap c (length xs) n in
    let front = window-take xs (length xs - r) c n (omega arith) in
    let back = window-take xs r (c + (length xs - r)) n (omega (arith, wrap)) in
    ap (window xs c) split
    ∙ window-append xs (length xs - r) r c n
    ∙ ap₂ ◌++◌ (front ∙ take_all (length xs - r) (drop r xs) (omega (arith, length-drop r xs)))
        (back ∙ ap (λ k. take r (drop k xs)) wrap)

-- What a selection answered, and the selections after it.
abbrev pub follow : Option ℕ × Pool → (Pool → List ℕ) → List ℕ
follow (none, t) more = []
follow (some h, t) more = h ∷ more t

-- The selections one after another, with no other selection in between.
unfoldable pub picks : ℕ → Pool → List ℕ
picks zero s = []
picks (suc k) s = follow (next_eligible [] s) (picks k)

next_eligible-lap :
    (s : Pool) (h c : ℕ)
    → 0 < length s.members
    → lap (in_rotation s) s.members (length s.members) [] s.cursor ≡ (some h, c)
    → next_eligible [] s ≡ (some h, record s { cursor = c })
unfolding next_eligible
next_eligible-lap s h c n e =
    let filled : (length s.members == 0) ≡ false = ground arith in rw (filled, e)

picks-laps :
    (k : ℕ) (s : Pool)
    → 0 < length s.members
    → length (laps (in_rotation s) s.members k s.cursor) ≡ k
    → picks k s ≡ laps (in_rotation s) s.members k s.cursor
unfolding picks
picks-laps zero s n e = unfold laps in refl
picks-laps (suc k) s n e =
    let r = lap (in_rotation s) s.members (length s.members) [] s.cursor in
    elim (Option-cases r.0) [
      | inl missed ↦
          absurd (omega (arith, ap length (laps_miss (in_rotation s) s.members k s.cursor missed)))
      | inr (h, hit) ↦
          let at : r ≡ (some h, r.1) = ground arith in
          let later = laps_hit (in_rotation s) s.members k s.cursor r.1 h at in
          let after = record s { cursor = r.1 } in
          let rest = picks-laps k after n (omega (arith, ap length later, e)) in
          rw (next_eligible-lap s h r.1 n at, later) (ap (◌∷◌ h) rest)
    ]

-- From any cursor that a lap does not carry past the usize, as many selections as there are
-- members in rotation pick exactly those members, each at its place in the members' order from
-- the cursor on, those out of rotation passed over; nothing else moves the cursor meanwhile.
pub picks_lap :
    (s : Pool)
    → 0 < length s.members
    → s.cursor + length s.members < u64_mod
    → let due = filter (in_rotation s) (lap_order s) in picks (length due) s ≡ due
picks_lap s n h =
    let el = in_rotation s in
    let xs = s.members in
    let lapped = laps-window el xs (length xs) s.cursor n (omega arith) h in
    let all = rw (window_lap xs s.cursor n) at lapped in
    picks-laps (length (filter el (lap_order s))) s n (ap length all) ∙ all
