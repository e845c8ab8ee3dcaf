-- ===== src/Integrity/Rounds.antt =====
-- integrity.rs: what a whole round does to a provider, its early returns included.
use arkiv_community_lb.Base.{
  ℕ, ◌≡◌, refl, inl, inr, Bool, true, false, Option, none, some, List, [], ◌∷◌, Option-cases,
}
use arkiv_community_lb.Provider.Defs.{divergence, integrity}
use arkiv_community_lb.Provider.Gates.{GatesByte, is_open}
use arkiv_community_lb.Pool.Defs.{Pool}
use arkiv_community_lb.Pool.Members.{Distinct}
use arkiv_community_lb.Integrity.Entities.{BlockFields}
use arkiv_community_lb.Integrity.Judge.{Expected, KeyPage, load_keys_if_due, pick_key}
use arkiv_community_lb.Integrity.Defs.{Look, Reference, judge_all, judge_sampled, round_over}
use arkiv_community_lb.Integrity.Confirm.{looks, AnswersAll, judge_all-Diverges}

module _ {V : Type 0} (same_value : V → V → Bool) (reference : Reference V)
    (first second : Look V) where
  -- What a round judges by: the block that the reference answered, without an entity when the check of
  -- entities is off, and else with the key that is picked at that height and the rows that the
  -- reference answers for it there.
  abbrev pub Expects : (entity_check : Bool) → (interval now : ℕ) → KeyPage → Expected V → Type 0
  Expects false interval now page e = (reference.finalized ≡ some e.finalized) × (e.entity ≡ none)
  Expects true interval now page e =
      let height = e.finalized.number in
      (reference.finalized ≡ some e.finalized)
      × (key : ℕ) × (pick_key reference.random height
            (load_keys_if_due interval now height reference.page page)
          ≡ some key)
      × (e.entity ≡ some (record { key = key; rows = reference.rows key height }))

  -- Against what the round judges by, both looks judged a divergence of the provider.
  abbrev pub TwiceDiverged : (entity_check : Bool) → (interval now : ℕ) → KeyPage → ℕ → Type 0
  TwiceDiverged entity_check interval now page k =
      (e : Expected V) × Expects entity_check interval now page e
      × (looks same_value e first k ≡ divergence)
      × (looks same_value e second k ≡ divergence)

  module _ (interval now : ℕ) (page : KeyPage) (providers : List ℕ) (s : Pool) (k : ℕ)
      (once : Distinct (first.order providers)) (all_answer : AnswersAll second)
      (before : is_open integrity (s.entry k) ≡ true)
      (byte : GatesByte ((reference.meanwhile s).entry k))
      (was : is_open integrity ((reference.meanwhile s).entry k) ≡ true) where
    judged_TwiceDiverged :
        (entity_check : Bool) (e : Expected V)
        → Expects entity_check interval now page e
        → is_open integrity
            ((judge_all same_value first second e providers (reference.meanwhile s)).entry k)
          ≡ false
        → TwiceDiverged entity_check interval now page k
    judged_TwiceDiverged entity_check e expects closed =
        let (v, w) =
          judge_all-Diverges same_value e first second providers (reference.meanwhile s) k once
            all_answer byte was closed in
        (e, expects, v, w)

    sampled_TwiceDiverged :
        (finalized : BlockFields) (key : Option ℕ)
        → reference.finalized ≡ some finalized
        → pick_key reference.random finalized.number
            (load_keys_if_due interval now finalized.number reference.page page)
          ≡ key
        → is_open integrity
            ((judge_sampled same_value reference first second finalized providers key s).entry k)
          ≡ false
        → TwiceDiverged true interval now page k
    unfolding judge_sampled
    sampled_TwiceDiverged finalized none known picked closed = cc
    sampled_TwiceDiverged finalized (some key) known picked closed =
        judged_TwiceDiverged true
          (record {
            finalized = finalized;
            entity = some (record { key = key; rows = reference.rows key finalized.number });
          })
          (known, key, picked, refl) closed

  -- A round, its early returns included, takes a provider out by the integrity gate only if both
  -- of its looks at the provider judged a divergence, against the one expectation of the round: the
  -- finalized block that the reference answered and, with the entity check on, the reference's rows
  -- at that height for the key picked there. One wrong read costs nobody the rotation, and a silent
  -- reference nobody at all. The gate is open when the round begins and when its verdicts are
  -- recorded, and then the entry's eligibility byte holds only the two gates. No provider answers
  -- the first look twice, and the second look's answers come from those who were asked, and from
  -- all of them.
  pub round_over-TwiceDiverged :
      (entity_check : Bool) (interval now : ℕ) (providers : List ℕ) (s : Pool) (page : KeyPage)
      (k : ℕ)
      → Distinct (first.order providers)
      → AnswersAll second
      → is_open integrity (s.entry k) ≡ true
      → GatesByte ((reference.meanwhile s).entry k)
      → is_open integrity ((reference.meanwhile s).entry k) ≡ true
      → is_open integrity (
          (round_over same_value entity_check interval now reference first second providers
              (s, page)).0.entry
            k)
        ≡ false
      → TwiceDiverged entity_check interval now page k
  unfolding round_over
  round_over-TwiceDiverged check interval now [] s page k once all before byte was closed = cc
  round_over-TwiceDiverged false interval now (h ∷ hs) s page k once all before byte was closed =
      elim (Option-cases reference.finalized) [
        | inl silent ↦ cc (rw (silent, round_over) at closed)
        | inr (finalized, known) ↦
            judged_TwiceDiverged interval now page (h ∷ hs) s k once all before byte was false
              (record { finalized = finalized; entity = none }) (known, refl)
              (rw (known, round_over) at closed)
      ]
  round_over-TwiceDiverged true interval now (h ∷ hs) s page k once all before byte was closed =
      elim (Option-cases reference.finalized) [
        | inl silent ↦ cc (rw (silent, round_over) at closed)
        | inr (finalized, known) ↦
            sampled_TwiceDiverged interval now page (h ∷ hs) s k once all before byte was finalized
              _ known refl (rw (known, round_over) at closed)
      ]
