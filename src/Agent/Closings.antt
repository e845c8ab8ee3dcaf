-- ===== src/Agent/Closings.antt =====
-- agent.rs `counts_batch`: the patch that a close writes into its counter record.
use arkiv_community_lb.Base.{
  ℕ, suc, ◌+◌, ◌≡◌, refl, inl, inr, ◌&&◌, some, none, Option, List, [], ◌∷◌, ◌++◌, All, All-weaken,
  Member, Bool-cases, leb, ltb, ◌==◌, ◌%◌, u64_mod,
}
use arkiv_community_lb.Base.Results.{ok}
use arkiv_community_lb.Pool.Defs.{Pool}
use arkiv_community_lb.Chain.Records.{closed, CounterRecord, Stored}
use arkiv_community_lb.Chain.Writer.{Operation, patch, Batch}
use arkiv_community_lb.Agent.Defs.{
  Live, KnownAgreements, State, Agent, Flush, scheduled, stop, Closing, blocks, patch_record,
}
use arkiv_community_lb.Agent.Counters.{
  Counters, CountersByAgreement, find_counter, reconcile_counters,
}
use arkiv_community_lb.Agent.Flushing.{
  writes, closes, is_scheduled, owed, counts_each, counts_batch, uncounted, send_flush, Flushed,
}

module _ (a : Agent) (head : ℕ) (records : CountersByAgreement) where
  -- The batch patches the record that the chain has open for the agreement: it is closed at the head
  -- with the count of the close, and its other fields are as they were.
  abbrev pub IsWritten : Batch → Closing → Type 0
  IsWritten batch c =
      (old : Stored CounterRecord) × (find_counter c.agreement records ≡ some old)
      × (old.key ≡ c.counter)
      × Member
          (patch (
            patch_record a.codec old.key
              (record (old.content) { count = c.count; state = closed; closed_block = some head })))
          batch

  IsWritten-more :
      (op : Operation) (batch : Batch) (cs : List Closing)
      → All (IsWritten batch) cs
      → All (IsWritten (op ∷ batch)) cs
  IsWritten-more op batch cs all =
      All-weaken (IsWritten batch) (IsWritten (op ∷ batch)) cs (λ c w. (w.0, w.1, w.2, inr w.3)) all

  owed-IsWritten :
      (flush : Flush) (k : ℕ) (l : Live) (served : ℕ) (found : Option (Stored CounterRecord))
      (batch : Batch) (cs : List Closing)
      → find_counter k records ≡ found
      → All (IsWritten batch) cs
      → All
          (IsWritten (writes (owed a head flush k l served found) batch))
          (closes (owed a head flush k l served found) cs)
  unfolding owed
  owed-IsWritten stop k l served none batch cs e all = all
  owed-IsWritten scheduled k l served none batch cs e all = IsWritten-more _ batch cs all
  owed-IsWritten flush k l served (some s) batch cs e all =
      let is_over =
        leb ((s.content.opened_block + blocks a.config.settlement_period) % u64_mod) head in
      elim (Bool-cases (is_scheduled flush && (ltb 0 served && is_over))) [
        | inl t ↦ rw t ((s, e, refl, inl refl), IsWritten-more _ batch cs all)
        | inr f ↦ elim (Bool-cases (s.content.count == served)) [
          | inl t ↦ rw (f, t) all
          | inr g ↦ rw (f, g) (IsWritten-more _ batch cs all)
        ]
      ]

  counts_each-IsWritten :
      (flush : Flush) (pool : Pool) (known : KnownAgreements)
      → let r = counts_each a head flush records pool known in All (IsWritten r.0) r.1
  unfolding counts_each
  counts_each-IsWritten flush pool [] = tt
  counts_each-IsWritten flush pool ((k, l) ∷ known) =
      owed-IsWritten flush k l (pool.entry l.provider).served (find_counter k records) _ _ refl
        (counts_each-IsWritten flush pool known)

  IsWritten-before :
      (before batch : Batch) (cs : List Closing)
      → All (IsWritten batch) cs
      → All (IsWritten (before ++ batch)) cs
  IsWritten-before [] batch cs all = all
  IsWritten-before (op ∷ before) batch cs all =
      IsWritten-more op (before ++ batch) cs (IsWritten-before before batch cs all)

pub counts_batch-IsWritten :
    (a : Agent) (head : ℕ) (counters : Counters) (flush : Flush) (s : State)
    → let b = counts_batch a counters head flush s in
      All (IsWritten a head counters.open_records b.0) b.1
unfolding counts_batch
counts_batch-IsWritten a head counters flush s =
    IsWritten-before a head counters.open_records (uncounted a head flush counters) _ _
      (counts_each-IsWritten a head counters.open_records flush s.pool s.agreements)

-- What a flush that reads the head at the moment wrote and sent for its closes: what landed is what
-- the chain answered to the batch, and each close is written over a record that the flush read.
pub record IsSent (a : Agent) (moment : ℕ) (s : State) (r : Flushed a) : Type 0 where
  pub head : ℕ
  pub counters : Counters
  pub sent_at : ℕ
  pub at_head : a.reader.block_number moment ≡ ok head
  pub read : reconcile_counters a head (suc moment) s ≡ ok (counters, r.reconciled)
  pub written : All (IsWritten a head counters.open_records r.counts) r.closing
  pub answered : r.landed ≡ send_flush a sent_at r.counts
