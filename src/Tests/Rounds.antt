-- ===== src/Tests/Rounds.antt =====
-- The theorems on the integrity rounds and on the rings of buckets at concrete inputs.
use arkiv_community_lb.Base.{
  inl, inr, ap, ℕ, ◌-◌, ◌≡◌, ◌↔◌, refl, true, false, none, some, List, [], ◌∷◌, arith, ◌==◌,
}
use arkiv_community_lb.Provider.Defs.{
  Provider, Verdict, matching, divergence, integrity, static, record_integrity,
}
use arkiv_community_lb.Provider.Defs
use arkiv_community_lb.Provider.Gates.{is_open}
use arkiv_community_lb.Pool.Defs.{Pool, add, no_members, modify, next_of}
use arkiv_community_lb.Integrity.Entities.{
  BlockFields, ArkivAttribute, ArkivEntity, same_block, same_entities,
}
use arkiv_community_lb.Integrity.Judge.{said, Expected, Answers, KeyPage, judge, pick_key}
use arkiv_community_lb.Integrity.Defs.{Look, judge_all, round_over, Reference}
use arkiv_community_lb.Integrity.Order.{same_entities-AllAlike}
use mathlib.Core.List.Permᴰ.{swap}
use arkiv_community_lb.Integrity.Rounds.{TwiceDiverged, round_over-TwiceDiverged}
use arkiv_community_lb.Integrity.Verdicts.{
  BlockAgrees, EntityAgrees, judge-Agrees, Picked, pick_key-Picked,
}
use arkiv_community_lb.Stats.{empty, Stats, tick_all, stop_all}
use arkiv_community_lb.Stats.Rings.{Closing, closes, total, total-closes}
use arkiv_community_lb.Stats.Pairs.{AllPaired, tick_all-Paired}

-- A provider in rotation, and a pool of it alone.
abbrev serving : Provider
unfolding Defs.new
serving = record (Defs.new "node-a" "http://10.0.0.1:8545/" static 0) { eligibility = 3 }

abbrev one : Pool
unfolding add no_members
one = (add serving (no_members (λ _. serving))).1

abbrev finalized : BlockFields
finalized = record {
  number = 812;
  hash = 71;
  parent_hash = 70;
  state_root = 5;
  transactions_root = 6;
  receipts_root = 7;
  transactions = 31 ∷ 32 ∷ [];
}

abbrev expected : Expected ℕ
expected = record { finalized = finalized; entity = none }

-- A provider whose block has another state root, in both looks.
abbrev wrong : Look ℕ
wrong = record {
  order = λ asked. asked;
  block = λ _. said (some (record finalized { state_root = 9 }));
  rows = λ _. said [];
  entry = λ _. serving;
}

abbrev reference : Reference ℕ
reference = record {
  finalized = some finalized;
  page = none;
  rows = λ _ _. none;
  random = λ n. n - 1;
  meanwhile = λ s. s;
}

abbrev no_keys : KeyPage
no_keys = record { keys = []; read_at = none }

round_over-TwiceDiverged_example : TwiceDiverged (◌==◌) reference wrong wrong false 5 9 no_keys 0
unfolding round_over judge_all one serving is_open same_block modify record_integrity
round_over-TwiceDiverged_example =
    round_over-TwiceDiverged (◌==◌) reference wrong wrong false 5 9 (0 ∷ []) one no_keys 0
      ((λ m. m), tt) (λ asked h. ((λ m. m), (λ m. m))) refl (omega arith) refl refl

abbrev honest : Answers ℕ
honest = record { provider = 0; block = said (some finalized); rows = none }

judge-Agrees_example :
    ((judge (◌==◌) expected serving honest).0 ≡ matching)
    ↔ (BlockAgrees finalized (said (some finalized)) × EntityAgrees (◌==◌) none none)
judge-Agrees_example = judge-Agrees (◌==◌) expected serving honest

abbrev page : KeyPage
page = record {
  keys =
      record { key = 11; created_at = 900; expires_at = 990 }
      ∷ record { key = 12; created_at = 700; expires_at = 990 }
      ∷ [];
  read_at = some 0;
}

pick_key-Picked_example : Picked 812 page.keys (pick_key (λ n. n - 1) 812 page)
pick_key-Picked_example = pick_key-Picked (λ n. n - 1) 812 page (λ n h. omega arith)

-- Two hours, and the end of the process in the second one.
abbrev closings : List Closing
closings =
    record { start = 3600; reading = 5; stopping = false }
    ∷ record { start = 7200; reading = 9; stopping = false }
    ∷ record { start = 7200; reading = 12; stopping = true }
    ∷ []

total-closes_example : total (closes closings empty).buckets ≡ 12
unfolding empty
total-closes_example =
    total-closes closings empty refl (omega arith, (omega arith, (omega arith, tt))) (omega arith)
      (omega arith)

abbrev no_stats : Stats
unfolding empty
no_stats = record {
  providers = [];
  lb = record { no_healthy_provider = empty; timed_out = empty; no_provider_answered = empty };
}

tick_all-Paired_example :
    AllPaired (tick_all 7200 one no_stats).providers
    × AllPaired (stop_all 7200 one no_stats).providers
unfolding no_stats
tick_all-Paired_example = tick_all-Paired 7200 one no_stats tt

-- An entity with two attributes, and the same as a node of another version renders it.
abbrev owner : ArkivAttribute ℕ
owner = record { name = "owner"; type_tag = "address"; value = 7 }

abbrev label : ArkivAttribute ℕ
label = record { name = "label"; type_tag = "string"; value = 3 }

abbrev row : List (ArkivAttribute ℕ) → ArkivEntity ℕ
row attributes = record {
  key = 11;
  creator = 7;
  created_at = 700;
  updated_at = 700;
  expires_at = 990;
  attributes = attributes;
}

same_entities-AllAlike_example :
    same_entities (◌==◌) (row (owner ∷ label ∷ []) ∷ []) (row (label ∷ owner ∷ []) ∷ []) ≡ true
same_entities-AllAlike_example =
    same_entities-AllAlike (◌==◌) (λ v. ground arith) (row (owner ∷ label ∷ []) ∷ [])
      (row (label ∷ owner ∷ []) ∷ [])
      (
        (
          refl,
          ((λ m. elim m [ inl q ↦ omega (arith, ap next_of q) | inr k ↦ k ]), ((λ m. m), tt)),
          swap refl refl,
        ),
        tt,
      )
