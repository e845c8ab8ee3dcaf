-- ===== src/Integrity/Defs.antt =====
-- crates/lb/src/integrity.rs: a round of the integrity checker. What the reference and the
-- providers answer, in which order the answers come in, and the random index are inputs.
use arkiv_community_lb.Integrity.Entities.{BlockFields, ArkivEntity}
use arkiv_community_lb.Base.{
  ℕ, Bool, true, false, Option, none, some, List, [], ◌∷◌, map, length, filter, ◌==◌, if◌then◌else◌,
}
use arkiv_community_lb.Provider.Defs.{
  Provider, Verdict, matching, stale, divergence, unknown, healthy, record_integrity,
}
use arkiv_community_lb.Pool.Defs.{Pool, modify}
use arkiv_community_lb.Integrity.Judge.{
  Answered, Answers, Expected, Finding, KeyPage, judge, load_keys_if_due, pick_key,
}

-- What the providers answer to one look: the order in which the answers of the asked ones come in,
-- what each answers, and the entries when their answers are judged.
pub record Look (V : Type 0) : Type 0 where
  pub order : List ℕ → List ℕ
  pub block : ℕ → Answered (Option BlockFields)
  pub rows : ℕ → Answered (List (ArkivEntity V))
  pub entry : ℕ → Provider

abbrev pub is_divergence : Verdict → Bool
is_divergence divergence = true
is_divergence matching = false
is_divergence stale = false
is_divergence unknown = false

-- The findings with one of the same provider put in the place of its first one.
unfoldable pub replace_first : {V : Type 0} → Finding V → List (Finding V) → List (Finding V)
replace_first second [] = []
replace_first second (f ∷ fs) =
    if f.provider == second.provider then second ∷ fs else f ∷ replace_first second fs

unfoldable pub replace_each : {V : Type 0} → List (Finding V) → List (Finding V) → List (Finding V)
unfolding replace_first
replace_each [] fs = fs
replace_each (second ∷ rest) fs = replace_each rest (replace_first second fs)

-- `record`
unfoldable pub record_findings : {V : Type 0} → ℕ → List (Finding V) → Pool → Pool
record_findings height [] s = s
record_findings height (f ∷ fs) s =
    record_findings height fs (modify f.provider (λ p. (record_integrity f.verdict height p).0) s)

-- What the reference answers in a round, the random index among so many keys, and what the other
-- tasks do to the pool until the verdicts are recorded.
pub record Reference (V : Type 0) : Type 0 where
  pub finalized : Option BlockFields
  pub page : Option (List (ArkivEntity V))
  pub rows : ℕ → ℕ → Option (List (ArkivEntity V))
  pub random : ℕ → ℕ
  pub meanwhile : Pool → Pool

module _ {V : Type 0} (same_value : V → V → Bool) where
  -- `ask`: the entity is read only if one is expected.
  unfoldable pub ask : Look V → Expected V → ℕ → Answers V
  ask look e h = record {
    provider = h;
    block = look.block h;
    rows = elim e.entity [ none ↦ none | some _ ↦ some (look.rows h) ];
  }

  unfoldable pub find_out : Look V → Expected V → ℕ → Finding V
  unfolding ask judge
  find_out look e h =
      let (verdict, evidence) = judge same_value e (look.entry h) (ask look e h) in
      record { provider = h; verdict = verdict; evidence = evidence }

  -- `check`
  unfoldable pub check : Look V → Expected V → List ℕ → List (Finding V)
  unfolding find_out
  check look e providers = map (find_out look e) (look.order providers)

  -- `confirm`: the doubtful are looked at again. Without any the second look is not made, and its
  -- findings replace nothing.
  unfoldable pub confirm : Look V → Expected V → List (Finding V) → List (Finding V)
  unfolding check replace_each
  confirm second e findings =
      let doubtful =
        map (λ (f : Finding V). f.provider)
          (filter (λ (f : Finding V). is_divergence f.verdict) findings) in
      if length doubtful == 0 then findings else replace_each (check second e doubtful) findings

  -- The end of a round, with what was expected, on the pool as the verdicts find it.
  unfoldable pub judge_all : Look V → Look V → Expected V → List ℕ → Pool → Pool
  unfolding check confirm record_findings
  judge_all first second e providers s =
      record_findings e.finalized.number (confirm second e (check first e providers)) s

  -- With the sampled entity, if there is a key.
  unfoldable pub judge_sampled :
      Reference V → Look V → Look V → BlockFields → List ℕ → Option ℕ → Pool → Pool
  unfolding judge_all
  judge_sampled reference first second finalized providers none s = s
  judge_sampled reference first second finalized providers (some key) s =
      judge_all first second
        (record {
          finalized = finalized;
          entity = some (record { key = key; rows = reference.rows key finalized.number });
        })
        providers (reference.meanwhile s)

  -- `round_over`, of the checker's pool and page of keys.
  unfoldable pub round_over :
      (entity_check : Bool) (interval now : ℕ)
      → Reference V
      → Look V
      → Look V
      → List ℕ
      → Pool × KeyPage
      → Pool × KeyPage
  unfolding load_keys_if_due pick_key judge_all judge_sampled
  round_over entity_check interval now reference first second [] (s, page) = (s, page)
  round_over entity_check interval now reference first second (h ∷ hs) (s, page) =
      elim reference.finalized [
        | none ↦ (s, page)
        | some finalized ↦
            if entity_check
            then (let page' = load_keys_if_due interval now finalized.number reference.page page in
                let key = pick_key reference.random finalized.number page' in
                (judge_sampled reference first second finalized (h ∷ hs) key s, page'))
            else (
              judge_all first second (record { finalized = finalized; entity = none }) (h ∷ hs)
                  (reference.meanwhile s),
              page,
            )
      ]

  -- `round`
  unfoldable pub round :
      (entity_check : Bool) (interval now : ℕ)
      → Reference V
      → Look V
      → Look V
      → Pool × KeyPage
      → Pool × KeyPage
  unfolding round_over
  round entity_check interval now reference first second (s, page) =
      round_over entity_check interval now reference first second
        (filter (λ h. healthy (s.entry h)) s.members) (s, page)
