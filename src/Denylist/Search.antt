-- ===== src/Denylist/Search.antt =====
-- denylist.rs: the search against a description by parts of the body.
use arkiv_community_lb.Base.{
  take-append-drop, All, ℕ, suc, ◌<◌, ◌≡◌, ◌↔◌, refl, ap, inl, inr, ◌⊎◌, String, Bool, true, false,
  Option, none, some, List, [], ◌∷◌, ◌++◌, map, length, length-append, take, drop, any, find, arith,
  Bool-cases, ltb, leb,
}
use arkiv_community_lb.Denylist.{
  codes, denied_names, lower, eq_ignore_ascii_case, windows, contains_ignore_case, denied,
}

-- The body has a part that is the name but for the case of its letters.
abbrev pub Occurs : List ℕ → List ℕ → Type 0
Occurs name body =
    (before : List ℕ) × (part : List ℕ) × (after : List ℕ) × (body ≡ before ++ (part ++ after))
    × (map lower part ≡ map lower name)

-- Somewhere at or after the head of the body the name begins.
abbrev Begins : List ℕ → List ℕ → Type 0
Begins name body =
    (part : List ℕ) × (after : List ℕ) × (body ≡ part ++ after) × (map lower part ≡ map lower name)

eq_ignore-lower : (xs ys : List ℕ) → eq_ignore_ascii_case xs ys ≡ true → map lower xs ≡ map lower ys
unfolding eq_ignore_ascii_case
eq_ignore-lower [] [] h = refl
eq_ignore-lower [] (y ∷ ys) h = cc
eq_ignore-lower (x ∷ xs) [] h = cc
eq_ignore-lower (x ∷ xs) (y ∷ ys) h = ground (arith, eq_ignore-lower xs ys)

lower-eq_ignore : (xs ys : List ℕ) → map lower xs ≡ map lower ys → eq_ignore_ascii_case xs ys ≡ true
unfolding eq_ignore_ascii_case
lower-eq_ignore [] [] h = refl
lower-eq_ignore [] (y ∷ ys) h = cc
lower-eq_ignore (x ∷ xs) [] h = cc
lower-eq_ignore (x ∷ xs) (y ∷ ys) h = ground (arith, lower-eq_ignore xs ys)

take-append : (xs ys : List ℕ) → take (length xs) (xs ++ ys) ≡ xs
take-append [] ys = refl
take-append (x ∷ xs) ys = ap (◌∷◌ x) (take-append xs ys)

length-map : (xs : List ℕ) → length (map lower xs) ≡ length xs
length-map [] = refl
length-map (x ∷ xs) = ap suc (length-map xs)

length_of_lower : (xs ys : List ℕ) → map lower xs ≡ map lower ys → length xs ≡ length ys
length_of_lower xs ys h = omega (arith, length-map xs, length-map ys, ap length h)

abbrev same_as : List ℕ → List ℕ → Bool
same_as name w = eq_ignore_ascii_case w name

any-windows :
    (name body : List ℕ) → any (same_as name) (windows (length name) body) ≡ true → Occurs name body
unfolding windows
any-windows name [] h = cc
any-windows name (x ∷ xs) h = elim (Bool-cases (leb (length name) (suc (length xs)))) [
  | inr short ↦ cc (rw short at h)
  | inl fits ↦ elim (Bool-cases (same_as name (take (length name) (x ∷ xs)))) [
    | inl here ↦ (
      [],
      take (length name) (x ∷ xs),
      drop (length name) (x ∷ xs),
      take-append-drop (length name) (x ∷ xs),
      eq_ignore-lower _ _ here,
    )
    | inr there ↦
        let (before, part, after, e, l) = any-windows name xs (rw (fits, there) at h) in
        (x ∷ before, part, after, ap (◌∷◌ x) e, l)
  ]
]

windows-any :
    (name before part after : List ℕ)
    → 0 < length name
    → map lower part ≡ map lower name
    → any (same_as name) (windows (length name) (before ++ (part ++ after))) ≡ true
unfolding windows
windows-any name [] [] after n l = absurd (omega (arith, length_of_lower [] name l))
windows-any name [] (p ∷ part) after n l =
    let size = length_of_lower (p ∷ part) name l in
    let fits : leb (length name) (suc (length (part ++ after))) ≡ true =
      ground (arith, length-append part after) in
    let whole : take (length name) (p ∷ (part ++ after)) ≡ p ∷ part =
      rw (← size) (take-append (p ∷ part) after) in
    rw (fits, whole, lower-eq_ignore (p ∷ part) name l)
windows-any name (x ∷ before) part after n l =
    let size = length_of_lower part name l in
    let fits : leb (length name) (suc (length (before ++ (part ++ after)))) ≡ true =
      ground (arith, length-append before (part ++ after), length-append part after) in
    rw fits (ground (arith, windows-any name before part after n l))

-- A name that is not empty is found exactly when the body has a part that is the name but for the
-- case of ASCII letters, wherever that part stands.
pub contains-Occurs :
    (body name : List ℕ)
    → 0 < length name
    → (contains_ignore_case body name ≡ true) ↔ Occurs name body
unfolding contains_ignore_case
contains-Occurs body name n = (found, finds)
  where
    found : contains_ignore_case body name ≡ true → Occurs name body
    found h = elim (Bool-cases (ltb (length body) (length name))) [
      | inl short ↦ cc (rw short at h)
      | inr fits ↦ any-windows name body (rw fits at h)
    ]

    finds : Occurs name body → contains_ignore_case body name ≡ true
    finds (before, part, after, e, l) =
        let fits : ltb (length body) (length name) ≡ false = ground (
          arith,
          ap length e,
          length-append before (part ++ after),
          length-append part after,
          length_of_lower part name l,
        ) in
        rw fits (rw e (windows-any name before part after n l))

-- What a search through the names may answer: the first of them that occurs, or nothing when none
-- does.
abbrev pub Denies : List ℕ → List String → Option String → Type 0
Denies body names none = All (λ n. ¬ (Occurs (codes n) body)) names
Denies body [] (some found) = ⊥
Denies body (n ∷ names) (some found) =
    ((found ≡ n) × Occurs (codes n) body)
    ⊎ ((¬ (Occurs (codes n) body)) × Denies body names (some found))

Denies-cons :
    (body : List ℕ) (n : String) (names : List String) (o : Option String)
    → ¬ (Occurs (codes n) body)
    → Denies body names o
    → Denies body (n ∷ names) o
Denies-cons body n names none h d = (h, d)
Denies-cons body n names (some m) h d = inr (h, d)

find-Denies :
    (body : List ℕ) (names : List String)
    → All (λ n. 0 < length (codes n)) names
    → Denies body names (find (λ n. contains_ignore_case body (codes n)) names)
find-Denies body [] a = tt
find-Denies body (n ∷ names) a = elim (Bool-cases (contains_ignore_case body (codes n))) [
  | inl e ↦ rw e (inl (refl, (contains-Occurs body (codes n) a.0).0 e))
  | inr e ↦
      let absent : ¬ (Occurs (codes n) body) = λ o. cc ((contains-Occurs body (codes n) a.0).1 o) in
      rw e (Denies-cons body n names _ absent (find-Denies body names a.1))
]

denied_names_filled : All (λ n. 0 < length (codes n)) denied_names
denied_names_filled = omega arith

-- A request is refused with the first of the denied names that occurs in its body, whatever the case
-- of the letters, and passes only if none of them occurs in it.
pub denied-Denies : (body : List ℕ) → Denies body denied_names (denied body)
unfolding denied
denied-Denies body = find-Denies body denied_names denied_names_filled
