-- ===== src/Agent/Flushing.antt =====
-- agent.rs `flush`: what each provider served goes into its agreement's counter record, and a period
-- that is over is closed.
use arkiv_community_lb.Base.Results.{Result, ok, err}
use arkiv_community_lb.Base.{
  ℕ, suc, ◌+◌, ◌*◌, ◌%◌, u64_mod, Bool, true, false, ◌&&◌, Option, none, some, List, [], ◌∷◌, ◌++◌,
  map, any, length, leb, ltb, ◌==◌, if◌then◌else◌,
}
use arkiv_community_lb.Provider.Defs.{subtract_served}
use arkiv_community_lb.Pool.Defs.{Pool, modify}
use arkiv_community_lb.Config.{as_secs}
use arkiv_community_lb.Chain.Records.{CounterRecord, Stored, encode_counter}
use arkiv_community_lb.Chain.Reader.{ReadError}
use arkiv_community_lb.Chain.Writer.{
  seconds, Operation, create, patch, delete, Batch, BatchResult, WriteError, Sent,
}
use arkiv_community_lb.Agent.Defs.{
  Live, KnownAgreements, State, Agent, Flush, scheduled, stop, Closing, Landed, ReconcileError,
  lookup, alter, blocks, patch_record, with_count, closed_with, opening, send_batch,
}
use arkiv_community_lb.Agent.Counters.{
  Counters, CountersByAgreement, find_counter, reconcile_counters,
}

abbrev pub is_scheduled : Flush → Bool
is_scheduled scheduled = true
is_scheduled stop = false

-- What a flush writes for one agreement.
pub data Owed : Type 0 where
  nothing : Owed
  write : Operation → Owed
  close : Operation → Closing → Owed

abbrev pub writes : Owed → Batch → Batch
writes nothing rest = rest
writes (write op) rest = op ∷ rest
writes (close op _) rest = op ∷ rest

abbrev pub closes : Owed → List Closing → List Closing
closes (close _ c) rest = c ∷ rest
closes _ rest = rest

abbrev pub landed_of : Result WriteError BatchResult → Landed → Landed
landed_of (err _) rest = rest
landed_of (ok r) rest = record {
  patched = r.patched_entities ++ rest.patched;
  created = length r.created_entities + rest.created;
  deleted = length r.deleted_entities + rest.deleted;
}

unfoldable pub landed_in : List Sent → Landed
landed_in [] = record { patched = []; created = 0; deleted = 0 }
landed_in (s ∷ sent) = landed_of s.result (landed_in sent)

abbrev pub has_landed : Landed → Closing → Bool
has_landed landed c = any (λ k. k == c.counter) landed.patched

-- The agreement that a close is made for, if the close landed and memory has it.
unfoldable pub ended_for : Landed → Closing → State → Option Live
unfolding lookup
ended_for landed c s = if has_landed landed c then lookup c.agreement s.agreements else none

module _ (a : Agent) where
  unfoldable pub create_counter : CounterRecord → Operation
  unfolding encode_counter
  create_counter r = create (record {
    attributes = encode_counter a.codec r;
    expiration = seconds (as_secs a.config.counter_record_life);
  })

  -- The records that no live agreement counts into.
  unfoldable pub stray_operation : (head : ℕ) → Stored CounterRecord → Operation
  unfolding patch_record closed_with
  stray_operation head s =
      if s.content.count == 0
      then delete (record { entity_key = s.key })
      else patch (patch_record a.codec s.key (closed_with s.content s.content.count head))

  unfoldable pub uncounted : (head : ℕ) → Flush → Counters → Batch
  unfolding stray_operation
  uncounted head stop counters = []
  uncounted head scheduled counters =
      map (λ (k : ℕ). delete (record { entity_key = k })) counters.duplicates
      ++ map (stray_operation head) counters.strays

  -- What an agreement with this record, or with none, is owed.
  unfoldable pub owed :
      (head : ℕ) → Flush → ℕ → Live → (served : ℕ) → Option (Stored CounterRecord) → Owed
  unfolding patch_record closed_with with_count create_counter opening blocks
  owed head flush k l served (some s) =
      if is_scheduled flush
        && (ltb 0 served
            && leb ((s.content.opened_block + blocks a.config.settlement_period) % u64_mod) head)
      then close (patch (patch_record a.codec s.key (closed_with s.content served head)))
          (record { agreement = k; counter = s.key; count = served })
      else if s.content.count == served
      then nothing
      else write (patch (patch_record a.codec s.key (with_count s served)))
  owed head stop k l served none = nothing
  owed head scheduled k l served none = write (create_counter (opening l.agreement.content k head))

  -- The loop of `counts_batch` over the agreements.
  unfoldable pub counts_each :
      (head : ℕ) → Flush → CountersByAgreement → Pool → KnownAgreements → Batch × List Closing
  unfolding owed find_counter
  counts_each head flush records pool [] = ([], [])
  counts_each head flush records pool ((k, l) ∷ known) =
      let r = counts_each head flush records pool known in
      let o = owed head flush k l (pool.entry l.provider).served (find_counter k records) in
      (writes o r.0, closes o r.1)

  unfoldable pub counts_batch : Counters → (head : ℕ) → Flush → State → Batch × List Closing
  unfolding uncounted counts_each
  counts_batch counters head flush s =
      let r = counts_each head flush counters.open_records s.pool s.agreements in
      (uncounted head flush counters ++ r.0, r.1)

  unfoldable pub send_flush : (moment : ℕ) → Batch → Landed
  unfolding send_batch landed_in
  send_flush moment batch = landed_in (send_batch a moment batch)

  -- A close that landed: its count leaves the entry, and the agreement's record is to be opened.
  unfoldable pub end_period : (head : ℕ) → Closing → Live → State → Operation × State
  unfolding create_counter opening modify subtract_served alter
  end_period head c l s = (
    create_counter (opening l.agreement.content c.agreement head),
    record {
      agreements = alter c.agreement (λ (m : Live). record m { counter = none }) s.agreements;
      pool = modify l.provider (subtract_served c.count) s.pool;
    },
  )

  unfoldable pub end_periods : List Closing → Landed → (head : ℕ) → State → Batch × State
  unfolding end_period ended_for
  end_periods [] landed head s = ([], s)
  end_periods (c ∷ closing) landed head s = elim (ended_for landed c s) [
    | none ↦ end_periods closing landed head s
    | some l ↦
        let p = end_period head c l s in
        let r = end_periods closing landed head p.1 in (p.0 ∷ r.0, r.1)
  ]

  -- What a flush that was not skipped read, wrote, and left.
  pub record Flushed : Type 0 where
    pub reconciled : State
    pub counts : Batch
    pub closing : List Closing
    pub landed : Landed
    pub successors : Batch
    pub followed : Landed
    pub after : State

  -- The part of a flush that follows the reconcile of the counters. What other tasks do while the
  -- first batch is in flight is `during`.
  unfoldable pub flush_from :
      Counters → (head : ℕ) → Flush → (moment : ℕ) → (during : State → State) → State → Flushed
  unfolding counts_batch send_flush end_periods
  flush_from counters head flush moment during s =
      let b = counts_batch counters head flush s in
      let landed = send_flush moment b.0 in
      let e = end_periods b.1 landed head (during s) in
      record {
        reconciled = s;
        counts = b.0;
        closing = b.1;
        landed = landed;
        successors = e.0;
        followed = send_flush (moment + 2 * length b.0) e.0;
        after = e.1;
      }

  abbrev pub with_read :
      (head : ℕ)
      → Flush
      → (moment : ℕ) → (during : State → State) → Result ReconcileError (Counters × State)
      → Option Flushed
  with_read head flush moment during (err _) = none
  with_read head flush moment during (ok r) = some (flush_from r.0 head flush moment during r.1)

  abbrev pub with_head :
      Flush → (moment : ℕ) → (during : State → State) → State → Result ReadError ℕ → Option Flushed
  with_head flush moment during s (err _) = none
  with_head flush moment during s (ok head) =
      with_read head flush (moment + 3 + length s.agreements) during
        (reconcile_counters a head (suc moment) s)

  -- `flush_with`; nothing is written and nothing changes when the chain could not be read.
  unfoldable pub flush_with :
      Flush → (moment : ℕ) → (during : State → State) → State → Option Flushed
  unfolding reconcile_counters flush_from
  flush_with flush moment during s = with_head flush moment during s (a.reader.block_number moment)
