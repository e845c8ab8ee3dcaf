-- ===== src/Integrity/Judge.antt =====
-- integrity.rs: the page of sample keys, and what one look at a provider says. The random index is
-- an input.
use arkiv_community_lb.Integrity.Entities.{BlockFields, ArkivEntity, same_block, same_entities}
use arkiv_community_lb.Base.{
  ℕ, ◌-◌, String, Bool, true, not, ◌&&◌, ◌||◌, Option, none, some, List, map, length, get_elem?,
  filter, any, ltb, leb, if◌then◌else◌,
}
use arkiv_community_lb.Provider.Defs.{
  Provider, Verdict, matching, stale, divergence, unknown, last_height,
}

-- `ReadFailure`, by what it means, and a read's result.
pub data ReadFailure : Type 0 where
  read_error over_cap : ReadFailure

pub data Answered (A : Type 0) : Type 0 where
  said : A → Answered A
  failed : ReadFailure → Answered A

-- `SampleKey`
pub record SampleKey : Type 0 where
  pub key : ℕ
  pub created_at : ℕ
  pub expires_at : ℕ

unfoldable pub exists_at : ℕ → SampleKey → Bool
exists_at height k = leb k.created_at height && ltb height k.expires_at

-- `KeyPage`
pub record KeyPage : Type 0 where
  pub keys : List SampleKey
  pub read_at : Option ℕ

abbrev pub is_old : ℕ → ℕ → Option ℕ → Bool
is_old interval now none = true
is_old interval now (some at) = leb interval (now - at)

unfoldable pub is_page_due : (interval now height : ℕ) → KeyPage → Bool
is_page_due interval now height page =
    not (any (λ (k : SampleKey). ltb height k.expires_at) page.keys)
    || is_old interval now page.read_at

-- `pick_key`, with the index that the random range gave.
unfoldable pub pick_key : (random : ℕ → ℕ) → ℕ → KeyPage → Option ℕ
unfolding exists_at
pick_key random height page =
    let alive = map (λ (k : SampleKey). k.key) (filter (exists_at height) page.keys) in
    get_elem? alive (random (length alive))

module _ {V : Type 0} where
  abbrev pub sample_key : ArkivEntity V → SampleKey
  sample_key e = record { key = e.key; created_at = e.created_at; expires_at = e.expires_at }

  -- `load_keys_if_due`, with the page that the reference answers if it is asked.
  unfoldable pub load_keys_if_due :
      (interval now height : ℕ) → Option (List (ArkivEntity V)) → KeyPage → KeyPage
  unfolding is_page_due
  load_keys_if_due interval now height answer page =
      if is_page_due interval now height page
      then elim answer [
        | none ↦ page
        | some entities ↦ record { keys = map sample_key entities; read_at = some now }
      ]
      else page

-- `Evidence`
pub data Evidence (V : Type 0) : Type 0 where
  block : (reference : BlockFields) (provider : Option BlockFields) → Evidence V
  entity : (key : ℕ) (reference provider : List (ArkivEntity V)) → Evidence V
  too_large : (read : String) → Evidence V

pub record ExpectedEntity (V : Type 0) : Type 0 where
  pub key : ℕ
  pub rows : Option (List (ArkivEntity V))

pub record Expected (V : Type 0) : Type 0 where
  pub finalized : BlockFields
  pub entity : Option (ExpectedEntity V)

-- `Answers`, the provider given by its handle.
pub record Answers (V : Type 0) : Type 0 where
  pub provider : ℕ
  pub block : Answered (Option BlockFields)
  pub rows : Option (Answered (List (ArkivEntity V)))

pub record Finding (V : Type 0) : Type 0 where
  pub provider : ℕ
  pub verdict : Verdict
  pub evidence : Option (Evidence V)

module _ {V : Type 0} (same_value : V → V → Bool) where
  -- `judge`, part by part: without a block, on the sampled entity, and with the block's read.
  abbrev pub judge_no_block : BlockFields → Option ℕ → Verdict × Option (Evidence V)
  judge_no_block finalized none = (stale, none)
  judge_no_block finalized (some probed) =
      if leb finalized.number probed
      then (divergence, some (block finalized none))
      else (stale, none)

  abbrev pub judge_rows :
      ExpectedEntity V
      → List (ArkivEntity V)
      → Option (List (ArkivEntity V))
      → Verdict × Option (Evidence V)
  judge_rows e rows none = (unknown, none)
  judge_rows e rows (some reference) =
      if same_entities same_value rows reference
      then (matching, none)
      else (divergence, some (entity e.key reference rows))

  abbrev pub judge_entity :
      Option (ExpectedEntity V)
      → Option (Answered (List (ArkivEntity V)))
      → Verdict × Option (Evidence V)
  judge_entity none _ = (matching, none)
  judge_entity (some e) none = (matching, none)
  judge_entity (some e) (some (failed read_error)) = (unknown, none)
  judge_entity (some e) (some (failed over_cap)) = (divergence, some (too_large "entity"))
  judge_entity (some e) (some (said rows)) = judge_rows e rows e.rows

  abbrev pub judge_block :
      Expected V
      → Option (Answered (List (ArkivEntity V)))
      → (probed : Option ℕ) → Answered (Option BlockFields)
      → Verdict × Option (Evidence V)
  judge_block e rows probed (failed read_error) = (unknown, none)
  judge_block e rows probed (failed over_cap) = (divergence, some (too_large "block"))
  judge_block e rows probed (said none) = judge_no_block e.finalized probed
  judge_block e rows probed (said (some b)) =
      if same_block b e.finalized
      then judge_entity e.entity rows
      else (divergence, some (block e.finalized (some b)))

  -- `judge`; the provider's entry is read for the height that its probes saw last.
  unfoldable pub judge : Expected V → Provider → Answers V → Verdict × Option (Evidence V)
  judge e p a = judge_block e a.rows (last_height p) a.block
