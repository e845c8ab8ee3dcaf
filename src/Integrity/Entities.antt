-- ===== src/Integrity/Entities.antt =====
-- chain/reader.rs `BlockFields`, chain/records.rs `ArkivEntity`, and integrity.rs `same_entities`:
-- what a look at a provider compares. An attribute's value is a value of serde_json, whose equality
-- test is a parameter.
use arkiv_community_lb.Base.{
  ℕ, String, str_eq, Bool, true, false, ◌&&◌, List, [], ◌∷◌, map, ltb, ◌==◌, if◌then◌else◌,
}
use arkiv_community_lb.Denylist.{codes}

-- Hashes and roots are read as numbers.
pub record BlockFields : Type 0 where
  pub number : ℕ
  pub hash : ℕ
  pub parent_hash : ℕ
  pub state_root : ℕ
  pub transactions_root : ℕ
  pub receipts_root : ℕ
  pub transactions : List ℕ

pub record ArkivAttribute (V : Type 0) : Type 0 where
  pub name : String
  pub type_tag : String
  pub value : V

pub record ArkivEntity (V : Type 0) : Type 0 where
  pub key : ℕ
  pub creator : ℕ
  pub created_at : ℕ
  pub updated_at : ℕ
  pub expires_at : ℕ
  pub attributes : List (ArkivAttribute V)

-- `==` on two lists, given `==` on the elements.
unfoldable pub same_list {ℓ} : {A : Type ℓ} → (A → A → Bool) → List A → List A → Bool
same_list eq [] [] = true
same_list eq [] (_ ∷ _) = false
same_list eq (_ ∷ _) [] = false
same_list eq (x ∷ xs) (y ∷ ys) = eq x y && same_list eq xs ys

-- The derived `==` of `BlockFields`
unfoldable pub same_block : BlockFields → BlockFields → Bool
unfolding same_list
same_block a b =
    a.number == b.number
    && (a.hash == b.hash
        && (a.parent_hash == b.parent_hash
            && (a.state_root == b.state_root
                && (a.transactions_root == b.transactions_root
                    && (a.receipts_root == b.receipts_root
                        && same_list (◌==◌) a.transactions b.transactions)))))

-- The order of `str`: the code points from the left, as the bytes of UTF-8 order them.
unfoldable pub codes_le : List ℕ → List ℕ → Bool
codes_le [] _ = true
codes_le (_ ∷ _) [] = false
codes_le (x ∷ xs) (y ∷ ys) = if x == y then codes_le xs ys else ltb x y

unfoldable pub name_le : String → String → Bool
unfolding codes_le
name_le a b = codes_le (codes a) (codes b)

module _ {V : Type 0} where
  -- `sort_by` of the names, which keeps the order of equal ones: each goes before its equals.
  unfoldable pub insert : ArkivAttribute V → List (ArkivAttribute V) → List (ArkivAttribute V)
  unfolding name_le
  insert a [] = a ∷ []
  insert a (b ∷ bs) = if name_le a.name b.name then a ∷ b ∷ bs else b ∷ insert a bs

  unfoldable pub sort_by_name : List (ArkivAttribute V) → List (ArkivAttribute V)
  unfolding insert
  sort_by_name [] = []
  sort_by_name (a ∷ rest) = insert a (sort_by_name rest)

  -- `sorted` on one row
  unfoldable pub sorted : ArkivEntity V → ArkivEntity V
  unfolding sort_by_name
  sorted e = record e { attributes = sort_by_name e.attributes }

module _ {V : Type 0} (same_value : V → V → Bool) where
  unfoldable pub same_attribute : ArkivAttribute V → ArkivAttribute V → Bool
  same_attribute a b =
      str_eq a.name b.name && (str_eq a.type_tag b.type_tag && same_value a.value b.value)

  -- The derived `==` of `ArkivEntity`
  unfoldable pub same_entity : ArkivEntity V → ArkivEntity V → Bool
  unfolding same_list same_attribute
  same_entity a b =
      a.key == b.key
      && (a.creator == b.creator
          && (a.created_at == b.created_at
              && (a.updated_at == b.updated_at
                  && (a.expires_at == b.expires_at
                      && same_list same_attribute a.attributes b.attributes))))

  unfoldable pub same_entities : List (ArkivEntity V) → List (ArkivEntity V) → Bool
  unfolding same_list same_entity sorted
  same_entities rows reference = same_list same_entity (map sorted rows) (map sorted reference)
