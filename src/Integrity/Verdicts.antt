-- ===== src/Integrity/Verdicts.antt =====
-- integrity.rs: what a verdict of one look means, and the keys that a round may sample.
use arkiv_community_lb.Base.{
  ℕ, zero, suc, ◌≤◌, ◌<◌, ◌≡◌, ◌↔◌, refl, ap, subst, inl, inr, Bool, true, false, Option, none,
  some, List, [], ◌∷◌, map, length, get_elem?, filter, any, Member, arith, Bool-cases, Option-cases,
  some-eq, leb, ◌==◌,
}
use arkiv_community_lb.Provider.Defs.{Provider, matching, last_height}
use arkiv_community_lb.Integrity.Entities.{
  BlockFields, ArkivEntity, same_block, same_list, same_entities,
}
use arkiv_community_lb.Integrity.Judge.{
  read_error, over_cap, Answered, said, failed, Expected, ExpectedEntity, Answers, judge,
  judge_block, judge_entity, SampleKey, KeyPage, exists_at, pick_key,
}

same_list_refl : (xs : List ℕ) → same_list (◌==◌) xs xs ≡ true
unfolding same_list
same_list_refl [] = refl
same_list_refl (x ∷ xs) = ground (arith, same_list_refl xs)

same_list-≡ : (xs ys : List ℕ) → same_list (◌==◌) xs ys ≡ true → xs ≡ ys
unfolding same_list
same_list-≡ [] [] h = refl
same_list-≡ [] (y ∷ ys) h = cc
same_list-≡ (x ∷ xs) [] h = cc
same_list-≡ (x ∷ xs) (y ∷ ys) h = grind (arith, same_list-≡ xs ys)

same_block_refl : (b : BlockFields) → same_block b b ≡ true
unfolding same_block
same_block_refl b = ground (arith, same_list_refl b.transactions)

same_block-≡ : (a b : BlockFields) → same_block a b ≡ true → a ≡ b
unfolding same_block
same_block-≡ a b h =
    let n : a.number ≡ b.number = ground arith in
    let i0 : a.hash ≡ b.hash = ground arith in
    let i1 : a.parent_hash ≡ b.parent_hash = ground arith in
    let i2 : a.state_root ≡ b.state_root = ground arith in
    let i3 : a.transactions_root ≡ b.transactions_root = ground arith in
    let i4 : a.receipts_root ≡ b.receipts_root = ground arith in
    let t : same_list (◌==◌) a.transactions b.transactions ≡ true = ground arith in
    let ts = same_list-≡ a.transactions b.transactions t in cc

-- A look agrees on the block if the provider says the reference's finalized block, in all of the
-- compared fields.
abbrev pub BlockAgrees : BlockFields → Answered (Option BlockFields) → Type 0
BlockAgrees finalized a = a ≡ said (some finalized)

module _ {V : Type 0} (same_value : V → V → Bool) where
  -- It agrees on the entity if none is sampled, or none was read, or both sides were read and have
  -- the same entities.
  abbrev pub EntityAgrees :
      Option (ExpectedEntity V) → Option (Answered (List (ArkivEntity V))) → Type 0
  EntityAgrees none _ = Unit
  EntityAgrees (some e) none = Unit
  EntityAgrees (some e) (some (failed _)) = ⊥
  EntityAgrees (some e) (some (said rows)) =
      (reference : List (ArkivEntity V)) × (e.rows ≡ some reference)
      × (same_entities same_value rows reference ≡ true)

  judge_entity-Agrees :
      (e : Option (ExpectedEntity V)) (rows : Option (Answered (List (ArkivEntity V))))
      → ((judge_entity same_value e rows).0 ≡ matching) ↔ EntityAgrees e rows
  judge_entity-Agrees none rows = ((λ _. tt), (λ _. refl))
  judge_entity-Agrees (some e) none = ((λ _. tt), (λ _. refl))
  judge_entity-Agrees (some e) (some (failed read_error)) = ((λ h. cc), (λ h. elim h [ ]))
  judge_entity-Agrees (some e) (some (failed over_cap)) = ((λ h. cc), (λ h. elim h [ ]))
  judge_entity-Agrees (some e) (some (said rows)) = elim (Option-cases e.rows) [
    | inl q ↦ ((λ h. cc (rw q at h)), (λ (reference, p, s). cc))
    | inr (reference, q) ↦ elim (Bool-cases (same_entities same_value rows reference)) [
      | inl s ↦ ((λ h. (reference, q, s)), (λ _. rw (q, s) refl))
      | inr s ↦ ((λ h. cc (rw (q, s) at h)), (λ (other, p, t). cc))
    ]
  ]

  judge_block-Agrees :
      (e : Expected V) (rows : Option (Answered (List (ArkivEntity V)))) (probed : Option ℕ)
      (b : Answered (Option BlockFields))
      → ((judge_block same_value e rows probed b).0 ≡ matching)
        ↔ (BlockAgrees e.finalized b × EntityAgrees e.entity rows)
  judge_block-Agrees e rows probed (failed read_error) = ((λ h. cc), (λ h. cc))
  judge_block-Agrees e rows probed (failed over_cap) = ((λ h. cc), (λ h. cc))
  judge_block-Agrees e rows none (said none) = ((λ h. cc), (λ h. cc))
  judge_block-Agrees e rows (some height) (said none) =
      elim (Bool-cases (leb e.finalized.number height)) [
        | inl q ↦ ((λ h. cc (rw q at h)), (λ h. cc))
        | inr q ↦ ((λ h. cc (rw q at h)), (λ h. cc))
      ]
  judge_block-Agrees e rows probed (said (some b)) = elim (Bool-cases (same_block b e.finalized)) [
    | inl q ↦
        let same = same_block-≡ b e.finalized q in
        let (to, from) = judge_entity-Agrees e.entity rows in
        ((λ h. (ap (λ x. said (some x)) same, to (rw q at h))), (λ h. rw q (from h.1)))
    | inr q ↦ (
      (λ h. cc (rw q at h)),
      (λ h.
          let same : b ≡ e.finalized = cc in
          cc (subst (λ x. same_block b x ≡ true) same (same_block_refl b))),
    )
  ]

  -- A look's verdict is a match exactly when the provider says the reference's finalized block and
  -- agrees on the sampled entity.
  pub judge-Agrees :
      (e : Expected V) (p : Provider) (a : Answers V)
      → ((judge same_value e p a).0 ≡ matching)
        ↔ (BlockAgrees e.finalized a.block × EntityAgrees e.entity a.rows)
  unfolding judge
  judge-Agrees e p a = judge_block-Agrees e a.rows (last_height p) a.block

-- What a pick of a key says: a key of the page whose entity a read at the height finds, or none.
abbrev pub Picked : ℕ → List SampleKey → Option ℕ → Type 0
Picked height keys none = any (exists_at height) keys ≡ false
Picked height keys (some key) =
    (k : SampleKey) × Member k keys
    × (k.key ≡ key)
    × (k.created_at ≤ height)
    × (height < k.expires_at)

get_elem?-below : (xs : List ℕ) (i : ℕ) → i < length xs → (x : ℕ) × (get_elem? xs i ≡ some x)
get_elem?-below [] i h = absurd (omega arith)
get_elem?-below (x ∷ xs) zero h = (x, refl)
get_elem?-below (x ∷ xs) (suc i) h = get_elem?-below xs i (omega arith)

abbrev alive : ℕ → List SampleKey → List ℕ
alive height keys = map (λ (k : SampleKey). k.key) (filter (exists_at height) keys)

Picked-here :
    (height : ℕ) (k : SampleKey) (keys : List SampleKey) (i x : ℕ)
    → ((j : ℕ) → get_elem? (alive height keys) j ≡ some x → Picked height keys (some x))
    → exists_at height k ≡ true
    → get_elem? (k.key ∷ alive height keys) i ≡ some x
    → Picked height (k ∷ keys) (some x)
unfolding exists_at
Picked-here height k keys zero x later e h = (k, inl refl, some-eq h, ground arith, ground arith)
Picked-here height k keys (suc i) x later e h =
    let (found, member, same, old, live) = later i h in (found, inr member, same, old, live)

alive-Picked :
    (height : ℕ) (keys : List SampleKey) (i x : ℕ)
    → get_elem? (alive height keys) i ≡ some x
    → Picked height keys (some x)
alive-Picked height [] i x h = cc
alive-Picked height (k ∷ keys) i x h = elim (Bool-cases (exists_at height k)) [
  | inl e ↦ Picked-here height k keys i x (λ j. alive-Picked height keys j x) e (rw e at h)
  | inr e ↦
      let (found, member, same, old, live) = alive-Picked height keys i x (rw e at h) in
      (found, inr member, same, old, live)
]

none_alive :
    (height : ℕ) (keys : List SampleKey)
    → length (alive height keys) ≡ 0
    → any (exists_at height) keys ≡ false
none_alive height [] h = refl
none_alive height (k ∷ keys) h = elim (Bool-cases (exists_at height k)) [
  | inl e ↦ absurd (omega (arith, rw e at h))
  | inr e ↦ rw e (none_alive height keys (rw e at h))
]

none-Picked :
    (height : ℕ) (keys : List SampleKey) (i : ℕ)
    → length (alive height keys) ≡ 0
    → Picked height keys (get_elem? (alive height keys) i)
none-Picked height keys i h = elim (Option-cases (get_elem? (alive height keys) i)) [
  | inl e ↦ rw e (none_alive height keys h)
  | inr (x, e) ↦ rw e (alive-Picked height keys i x e)
]

-- A round samples a key whose entity exists at the finalized height, and finds one whenever the
-- page has one. The random index is below the count that it is drawn for.
pub pick_key-Picked :
    (random : ℕ → ℕ) (height : ℕ) (page : KeyPage)
    → ((n : ℕ) → 0 < n → random n < n)
    → Picked height page.keys (pick_key random height page)
unfolding pick_key
pick_key-Picked random height page below =
    let n = length (alive height page.keys) in
    elim (Bool-cases (n == 0)) [
      | inl e ↦ none-Picked height page.keys (random n) (ground arith)
      | inr e ↦
          let (x, q) =
            get_elem?-below (alive height page.keys) (random n) (below n (ground arith)) in
          rw q (alive-Picked height page.keys (random n) x q)
    ]
