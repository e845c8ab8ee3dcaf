-- ===== src/Chain/Writer/Sending.antt =====
-- writer.rs: `send`, which splits a batch that the node refuses as too large.
use arkiv_community_lb.Base.Results.{Result, err}
use arkiv_community_lb.Base.{ℕ, zero, suc, Option, none, some, List, [], ◌∷◌}
use arkiv_community_lb.Chain.Writer.{Batch, halves, BatchResult, WriteError, too_large, Sent}

abbrev pub Outcome : Type 0
Outcome = Result WriteError BatchResult

-- The two parts to send in place of a batch, if its answer asks for them.
unfoldable pub parts : Outcome → Batch → Option (Batch × Batch)
unfolding halves
parts (err (too_large _)) batch = halves batch
parts _ batch = none

abbrev pub reported : Sent → Option (List Sent) → Option (List Sent)
reported s none = none
reported s (some sent) = some (s ∷ sent)

-- What the sidecar answers to the calls, by their number.
module _ (execute : ℕ → Batch → Outcome) where
  -- The loop over the queue; without a result when the fuel, a unit for each call, runs out.
  unfoldable pub send_loop : (fuel call : ℕ) → List Batch → Option (List Sent)
  unfolding parts
  send_loop fuel call [] = some []
  send_loop zero call (chunk ∷ queue) = none
  send_loop (suc fuel) call (chunk ∷ queue) = elim (parts (execute call chunk) chunk) [
    | some (first, second) ↦ send_loop fuel (suc call) (first ∷ second ∷ queue)
    | none ↦
        reported (record { batch = chunk; result = execute call chunk })
          (send_loop fuel (suc call) queue)
  ]

  abbrev pub queue_of : Batch → List Batch
  queue_of [] = []
  queue_of (op ∷ ops) = (op ∷ ops) ∷ []

  unfoldable pub send : (fuel : ℕ) → Batch → Option (List Sent)
  unfolding send_loop
  send fuel batch = send_loop fuel 0 (queue_of batch)
