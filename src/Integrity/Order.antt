-- ===== src/Integrity/Order.antt =====
-- integrity.rs `same_entities`: the order in which a node renders the attributes plays no part.
use arkiv_community_lb.Base.{
  eq_iff, ℕ, ◌≡◌, ◌≢◌, refl, sym, ap, ◌∙◌, subst, inl, inr, ◌⊎◌, Bool, true, false, List, [], ◌∷◌,
  map, Member, arith, Bool-cases, ◌&&◌,
}
use mathlib.Core.List.{Permᴰ}
use mathlib.Core.List.Permᴰ.{nil, cons, swap, trans}
use mathlib.Core.Path.{ap₂, subst₂}
use arkiv_community_lb.Denylist.{codes}
use arkiv_community_lb.Integrity.Entities.{
  ArkivAttribute, ArkivEntity, same_list, codes_le, name_le, insert, sort_by_name, sorted,
  same_attribute, same_entity, same_entities,
}

codes_le_total : (xs ys : List ℕ) → codes_le xs ys ≡ false → codes_le ys xs ≡ true
unfolding codes_le
codes_le_total [] ys h = cc
codes_le_total (x ∷ xs) [] h = refl
codes_le_total (x ∷ xs) (y ∷ ys) h = ground (arith, codes_le_total xs ys)

codes_le_antisym : (xs ys : List ℕ) → codes_le xs ys ≡ true → codes_le ys xs ≡ true → xs ≡ ys
unfolding codes_le
codes_le_antisym [] [] h k = refl
codes_le_antisym [] (y ∷ ys) h k = cc
codes_le_antisym (x ∷ xs) [] h k = cc
codes_le_antisym (x ∷ xs) (y ∷ ys) h k = grind (arith, codes_le_antisym xs ys)

codes_le_trans :
    (xs ys zs : List ℕ) → codes_le xs ys ≡ true → codes_le ys zs ≡ true → codes_le xs zs ≡ true
unfolding codes_le
codes_le_trans [] ys zs h k = refl
codes_le_trans (x ∷ xs) [] zs h k = cc
codes_le_trans (x ∷ xs) (y ∷ ys) [] h k = cc
codes_le_trans (x ∷ xs) (y ∷ ys) (z ∷ zs) h k = ground (arith, codes_le_trans xs ys zs)

-- Attributes in the order of their names: of two with different names one goes first.
module _ {V : Type 0} where
  abbrev le : ArkivAttribute V → ArkivAttribute V → Bool
  le a b = name_le a.name b.name

  le_cases :
      (a b : ArkivAttribute V)
      → codes a.name ≢ codes b.name
      → ((le a b ≡ true) × (le b a ≡ false)) ⊎ ((le a b ≡ false) × (le b a ≡ true))
  unfolding name_le
  le_cases a b n = elim (Bool-cases (le a b)) [
    | inl e ↦ elim (Bool-cases (le b a)) [
      | inl e' ↦ absurd (n (codes_le_antisym (codes a.name) (codes b.name) e e'))
      | inr e' ↦ inl (e, e')
    ]
    | inr e ↦ inr (e, codes_le_total (codes a.name) (codes b.name) e)
  ]

  -- What goes before the one goes before whatever the one goes before.
  le_step : (a b c : ArkivAttribute V) → le a b ≡ true → le a c ≡ false → le b c ≡ false
  unfolding name_le
  le_step a b c e f = elim (Bool-cases (le b c)) [
    | inl g ↦ cc (codes_le_trans (codes a.name) (codes b.name) (codes c.name) e g)
    | inr g ↦ g
  ]

  insert_first :
      (a b : ArkivAttribute V) (cs : List (ArkivAttribute V))
      → le a b ≡ true
      → le b a ≡ false
      → insert a (insert b cs) ≡ insert b (insert a cs)
  unfolding insert
  insert_first a b [] e f = rw (e, f) refl
  insert_first a b (c ∷ cs) e f = elim (Bool-cases (le a c)) [
    | inl g ↦ elim (Bool-cases (le b c)) [
      | inl g' ↦ rw (g, g', e, f, insert) refl
      | inr g' ↦ rw g' (rw (g, f, g', insert) refl)
    ]
    | inr g ↦
        let g' = le_step a b c e g in rw g' (rw g (rw g' (ap (◌∷◌ c) (insert_first a b cs e f))))
  ]

  -- The names of a list of attributes are different texts.
  abbrev pub names : List (ArkivAttribute V) → List (List ℕ)
  names xs = map (λ (a : ArkivAttribute V). codes a.name) xs

  insert_comm :
      (a b : ArkivAttribute V) (cs : List (ArkivAttribute V))
      → codes a.name ≢ codes b.name
      → insert a (insert b cs) ≡ insert b (insert a cs)
  insert_comm a b cs n = elim (le_cases a b n) [
    | inl (e, f) ↦ insert_first a b cs e f
    | inr (e, f) ↦ sym (insert_first b a cs f e)
  ]

  abbrev pub NamesDiffer : List (ArkivAttribute V) → Type 0
  NamesDiffer [] = Unit
  NamesDiffer (a ∷ xs) = (¬ (Member (codes a.name) (names xs))) × NamesDiffer xs

  Member-names :
      {xs ys : List (ArkivAttribute V)} (n : List ℕ)
      → Permᴰ xs ys
      → Member n (names ys)
      → Member n (names xs)
  Member-names n nil m = m
  Member-names n (cons e p) (inl q) = inl (q ∙ ap (λ a. codes a.name) (sym e))
  Member-names n (cons e p) (inr m) = inr (Member-names n p m)
  Member-names n (swap e f) (inl q) = inr (inl (q ∙ ap (λ a. codes a.name) (sym f)))
  Member-names n (swap e f) (inr (inl q)) = inl (q ∙ ap (λ a. codes a.name) (sym e))
  Member-names n (swap e f) (inr (inr m)) = inr (inr m)
  Member-names n (trans p q) m = Member-names n p (Member-names n q m)

  -- A rearrangement of attributes with different names sorts to the same list, and the names of
  -- what is rearranged differ still.
  sort_by_name-Permᴰ :
      {xs ys : List (ArkivAttribute V)}
      → NamesDiffer xs
      → Permᴰ xs ys
      → (sort_by_name xs ≡ sort_by_name ys) × NamesDiffer ys
  unfolding sort_by_name
  sort_by_name-Permᴰ d nil = (refl, tt)
  sort_by_name-Permᴰ d (cons {a = a} {b = b} {l₁ = l} e p) =
      let (same, d') = sort_by_name-Permᴰ d.1 p in
      let new : ¬ (Member (codes b.name) (names l)) =
        subst (λ (x : ArkivAttribute V). ¬ (Member (codes x.name) (names l))) e d.0 in
      (ap₂ insert e same, ((λ m. new (Member-names (codes b.name) p m)), d'))
  sort_by_name-Permᴰ d (swap {a = a} {b = b} {l = l} e f) =
      subst₂
        (λ (x y : ArkivAttribute V).
          (sort_by_name (a ∷ b ∷ l) ≡ sort_by_name (x ∷ y ∷ l)) × NamesDiffer (x ∷ y ∷ l))
        f e
        (
          insert_comm a b (sort_by_name l) (λ q. d.0 (inl q)),
          (
            (λ m. elim m [ inl q ↦ d.0 (inl (sym q)) | inr k ↦ d.1.0 k ]),
            ((λ m. d.0 (inr m)), d.1.1),
          ),
        )
  sort_by_name-Permᴰ d (trans p q) =
      let (same, d') = sort_by_name-Permᴰ d p in
      let (same', d'') = sort_by_name-Permᴰ d' q in (same ∙ same', d'')

-- Two entities with equal fields but for the attributes, which are rearranged and have different
-- names.
abbrev pub Alike : {V : Type 0} → ArkivEntity V → ArkivEntity V → Type 0
Alike e f =
    (f ≡ record e { attributes = f.attributes })
    × NamesDiffer e.attributes
    × Permᴰ e.attributes f.attributes

abbrev pub AllAlike : {V : Type 0} → List (ArkivEntity V) → List (ArkivEntity V) → Type 0
AllAlike [] [] = Unit
AllAlike [] (_ ∷ _) = ⊥
AllAlike (_ ∷ _) [] = ⊥
AllAlike (e ∷ es) (f ∷ fs) = Alike e f × AllAlike es fs

module _ {V : Type 0} (same_value : V → V → Bool)
    (same_value_refl : (v : V) → same_value v v ≡ true) where
  same_attribute_refl : (a : ArkivAttribute V) → same_attribute same_value a a ≡ true
  unfolding same_attribute
  same_attribute_refl a =
      ground (arith, eq_iff a.name a.name, eq_iff a.type_tag a.type_tag, same_value_refl a.value)

  same_attributes_refl :
      (xs : List (ArkivAttribute V)) → same_list (same_attribute same_value) xs xs ≡ true
  unfolding same_list
  same_attributes_refl [] = refl
  same_attributes_refl (x ∷ xs) = rw (same_attribute_refl x) (same_attributes_refl xs)

  sorted-Alike : (e f : ArkivEntity V) → Alike e f → sorted f ≡ sorted e
  unfolding sorted
  sorted-Alike e f (q, d, p) =
      ap sorted q ∙ ap (λ xs. record e { attributes = xs }) (sym (sort_by_name-Permᴰ d p).0)

  same_entity_refl : (e : ArkivEntity V) → same_entity same_value e e ≡ true
  unfolding same_entity
  same_entity_refl e = ground (arith, same_attributes_refl e.attributes)

  -- Rows that differ in nothing but the order of the attributes of each entity are the same
  -- entities, so that a client version that renders them in another order is no divergence. The
  -- names within an entity are different, and the comparison of values holds of equal ones.
  pub same_entities-AllAlike :
      (rows reference : List (ArkivEntity V))
      → AllAlike rows reference
      → same_entities same_value rows reference ≡ true
  unfolding same_entities same_list
  same_entities-AllAlike [] [] h = refl
  same_entities-AllAlike (e ∷ es) [] h = elim h [ ]
  same_entities-AllAlike [] (f ∷ fs) h = elim h [ ]
  same_entities-AllAlike (e ∷ es) (f ∷ fs) h =
      let rest = same_list (same_entity same_value) (map sorted es) (map sorted fs) in
      subst (λ x. same_entity same_value (sorted e) x && rest ≡ true) (sym (sorted-Alike e f h.0))
        (rw (same_entity_refl (sorted e)) (same_entities-AllAlike es fs h.1))
