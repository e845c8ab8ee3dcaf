-- ===== src/Agent/Refresh.antt =====
-- agent.rs `refresh` and the steps that follow an admission: what keeps the listing and the eligible
-- providers' agreement records alive.
use arkiv_community_lb.Base.Results.{Result, ok, err}
use arkiv_community_lb.Base.{
  ℕ, suc, ◌+◌, ◌%◌, u64_mod, Bool, true, false, not, any, ◌||◌, Option, none, some, List, [], ◌∷◌,
  leb, ltb, if◌then◌else◌,
}
use arkiv_community_lb.Provider.Defs.{eligible, schedule_probe_now}
use arkiv_community_lb.Pool.Defs.{Pool, modify}
use arkiv_community_lb.Config.{as_secs}
use arkiv_community_lb.Chain.Reader.{ReadError}
use arkiv_community_lb.Chain.Writer.{
  seconds, Extend, Operation, extend, Batch, WriteError, Extended, Sent,
}
use arkiv_community_lb.Agent.Defs.{
  Live, KnownAgreements, State, Agent, lookup, alter, blocks, was_extended, send_batch,
}

pub record RefreshBatch : Type 0 where
  pub batch : Batch
  pub ineligible : ℕ
  pub expiring_later : ℕ

abbrev pub if_read : (ℕ → Bool) → Option ℕ → Bool
if_read test none = false
if_read test (some head) = test head

-- `expires_later`: an expiry that a refresh made at the head would not move later.
unfoldable pub expires_later : Option ℕ → (expires_at life : ℕ) → Bool
unfolding blocks
expires_later head expires_at life =
    if_read (λ h. ltb ((h + blocks life) % u64_mod) expires_at) head

-- What is done about one agreement at a refresh.
pub data Choice : Type 0 where
  ineligible expired expiring_later refreshed : Choice

unfoldable pub choose : Pool → Option ℕ → (agreement_life : ℕ) → Live → Choice
unfolding eligible expires_later
choose pool head agreement_life l =
    if eligible (pool.entry l.provider)
    then if if_read (λ h. leb l.agreement.expires_at h) head
      then expired
      else if expires_later head l.agreement.expires_at agreement_life
      then expiring_later
      else refreshed
    else ineligible

unfoldable pub extend_for : (entity_key life : ℕ) → Operation
extend_for entity_key life =
    extend (record { entity_key = entity_key; expiration = seconds (as_secs life) })

-- The loop of `refresh_batch`, over the agreements.
unfoldable pub refresh_each :
    Pool → Option ℕ → (agreement_life : ℕ) → KnownAgreements → RefreshBatch
unfolding choose extend_for
refresh_each pool head life [] = record { batch = []; ineligible = 0; expiring_later = 0 }
refresh_each pool head life ((k, l) ∷ known) =
    let r = refresh_each pool head life known in
    elim (choose pool head life l) [
      | ineligible ↦ record r { ineligible = suc r.ineligible }
      | expired ↦ r
      | expiring_later ↦ record r { expiring_later = suc r.expiring_later }
      | refreshed ↦ record r { batch = extend_for k life ∷ r.batch }
    ]

module _ (a : Agent) where
  unfoldable pub refresh_batch : Option ℕ → State → RefreshBatch
  unfolding expires_later extend_for refresh_each
  refresh_batch head s =
      let r = refresh_each s.pool head a.config.agreement_life s.agreements in
      if expires_later head a.listing_expires_at a.config.listing_life
      then record r { expiring_later = suc r.expiring_later }
      else record r { batch = extend_for a.listing_key a.config.listing_life ∷ r.batch }

  abbrev pub read : {T : Type 0} → Result ReadError T → Option T
  read (ok t) = some t
  read (err _) = none

  -- `refresh`; the balance is only for the logs.
  unfoldable pub refresh : (moment : ℕ) → State → List Sent
  unfolding refresh_batch send_batch
  refresh moment s =
      send_batch a (suc moment) (refresh_batch (read (a.reader.block_number moment)) s).batch

  -- `Agreements::admitted`: the probe that is due at once, and whether the steps start.
  unfoldable pub admitted : (now agreement : ℕ) → State → Bool × State
  unfolding lookup alter modify was_extended schedule_probe_now
  admitted now agreement s = elim (lookup agreement s.agreements) [
    | none ↦ (false, s)
    | some l ↦
        let t = record s { pool = modify l.provider (schedule_probe_now now) s.pool } in
        if was_extended l a.config.agreement_life || l.admission_task then (false, t) else (
          true,
          record t {
            agreements =
                alter agreement (λ (l : Live). record l { admission_task = true }) s.agreements;
          },
        )
  ]

  -- The answer to the extend at admission, as memory takes it.
  abbrev pub extended_in : (agreement : ℕ) → Result WriteError Extended → State → State
  extended_in agreement (err _) s = s
  extended_in agreement (ok e) s = record s {
    agreements =
        alter agreement
          (λ (l : Live). record l {
            agreement = record (l.agreement) { expires_at = e.expires_at };
          })
          s.agreements;
  }

  abbrev pub found_wrong : Option Bool → Bool
  found_wrong none = false
  found_wrong (some wrong) = wrong

  -- `admission`: whether the entry is healthy at each look before the deadline, and, with an
  -- integrity checker, whether the entry was serving wrong data after its check. Gives the write, if
  -- one is made, and memory after its answer; the task is over then.
  unfoldable pub admission :
      (moment agreement : ℕ)
      → (looks : List Bool) → (wrong : Option Bool) → State
      → Option Extend × State
  unfolding alter
  admission moment agreement looks wrong s =
      let over = record s {
        agreements =
            alter agreement (λ (l : Live). record l { admission_task = false }) s.agreements;
      } in
      let e : Extend = record {
        entity_key = agreement;
        expiration = seconds (as_secs a.config.agreement_life);
      } in
      if not (any (λ healthy. healthy) looks) || found_wrong wrong
      then (none, over)
      else (some e, extended_in agreement (a.writer.extend moment e) over)
