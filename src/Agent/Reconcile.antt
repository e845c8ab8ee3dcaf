-- ===== src/Agent/Reconcile.antt =====
-- agent.rs `reconcile_agreements`: memory is made to match the agreement records on the chain.
use arkiv_community_lb.Base.Results.{Result, ok, ◌>>=◌}
use arkiv_community_lb.Base.{
  ℕ, ◌+◌, true, false, none, some, List, [], ◌∷◌, map, any, ◌==◌, if◌then◌else◌,
}
use arkiv_community_lb.Pool.Defs.{Pool, add, remove, from_marketplace}
use arkiv_community_lb.Chain.Records.{Agreement, closed, Stored, agreement_record}
use arkiv_community_lb.Chain.Reader.{Query, creator, expires_after, of_kind, narrowed}
use arkiv_community_lb.Chain.Writer.{Operation, patch, delete, Sent}
use arkiv_community_lb.Agent.Defs.{
  Live, KnownAgreements, State, Agent, Ended, ReconcileError, lookup, insert, alter,
  sort_by_creation, from_chain, read_all, patch_record, send_batch,
}

-- The loop of `end_agreements`: what is not among the live keys leaves memory and the pool. Gives the
-- agreements that are owed a last write, with what their providers served.
unfoldable pub end_agreements : List ℕ → KnownAgreements → Pool → List Ended × State
unfolding remove
end_agreements live [] pool = ([], record { agreements = []; pool = pool })
end_agreements live ((k, l) ∷ known) pool = elim (any (λ j. j == k) live) [
  | true ↦
      let r = end_agreements live known pool in
      (r.0, record (r.1) { agreements = (k, l) ∷ r.1.agreements })
  | false ↦
      let r = end_agreements live known (remove (pool.entry l.provider).id pool).1 in
      (
        elim l.counter [
          | none ↦ r.0
          | some c ↦
              record {
                agreement = l.agreement;
                counter = c;
                served = (pool.entry l.provider).served;
              }
              ∷ r.0
        ],
        r.1,
      )
]

-- The block dates that the chain shows for a record that memory holds.
abbrev pub dated : Stored Agreement → Live → Live
dated stored held = record held {
  agreement = record (held.agreement) {
    created_at = stored.created_at;
    expires_at = stored.expires_at;
  };
}

abbrev pub provider_of : Live → ℕ
provider_of l = l.agreement.content.provider

abbrev pub providers : KnownAgreements → List ℕ
providers known = map (λ (p : ℕ × Live). provider_of p.1) known

module _ (a : Agent) where
  -- A new entry in the pool and in memory, with no counter yet.
  unfoldable pub enter : (now : ℕ) → Stored Agreement → State → State
  unfolding add from_marketplace insert
  enter now stored s =
      let joined =
        add
          (from_marketplace a.marketplace_id a.loopback_url stored.content.provider stored.key
            stored.content.remote_port now)
          s.pool in
      record {
        agreements =
            insert stored.key
              (record {
                agreement = stored;
                provider = joined.0;
                counter = none;
                admission_task = false;
              })
              s.agreements;
        pool = joined.1;
      }

  -- One turn of the loop of `adopt_agreements`.
  unfoldable pub adopt : (now : ℕ) → Stored Agreement → State → State
  unfolding lookup alter enter
  adopt now stored s = elim (lookup stored.key s.agreements) [
    | some _ ↦ record s { agreements = alter stored.key (dated stored) s.agreements }
    | none ↦
        if any (λ q. q == stored.content.provider) (providers s.agreements)
        then s
        else enter now stored s
  ]

  unfoldable pub adopt_agreements : (now : ℕ) → List (Stored Agreement) → State → State
  unfolding adopt
  adopt_agreements now [] s = s
  adopt_agreements now (stored ∷ live) s = adopt_agreements now live (adopt now stored s)

  unfoldable pub agreement_query : (head : ℕ) → Query
  unfolding narrowed of_kind
  agreement_query head =
      narrowed (expires_after head)
        (narrowed (creator a.identity.address) (of_kind "rpc.agreement"))

  unfoldable pub read_agreements :
      (head moment : ℕ) → Result ReconcileError (List (Stored Agreement))
  unfolding agreement_query read_all sort_by_creation
  read_agreements head moment =
      read_all a (agreement_record a.codec) "agreement" (agreement_query head) moment >>= λ live.
      ok (sort_by_creation live)

  -- The last write of an agreement that ended.
  unfoldable pub close_operation : (head : ℕ) → Ended → Operation
  unfolding patch_record
  close_operation head e =
      if e.served == 0
      then delete (record { entity_key = e.counter.key })
      else patch (
          patch_record a.codec e.counter.key (record {
            agreement = e.agreement.key;
            provider = e.agreement.content.provider;
            state = closed;
            count = e.served;
            wei_per_call = e.agreement.content.wei_per_call;
            opened_block = e.counter.opened_block;
            closed_block = some head;
          }))

  unfoldable pub close_ended : (head moment : ℕ) → List Ended → List Sent
  unfolding close_operation send_batch
  close_ended head moment ended = send_batch a moment (map (close_operation head) ended)

  -- What is done to memory once the chain was read.
  unfoldable pub match_chain : (now : ℕ) → List (Stored Agreement) → State → List Ended × State
  unfolding end_agreements adopt_agreements
  match_chain now live s =
      let r =
        end_agreements (map (λ (stored : Stored Agreement). stored.key) live) s.agreements s.pool in
      (r.0, adopt_agreements now live r.1)

  -- `reconcile_agreements`, with the reads and then the writes at the moments from the given one on.
  unfoldable pub reconcile_agreements :
      (now moment : ℕ) → State → Result ReconcileError (ℕ × State × List Sent)
  unfolding read_agreements match_chain close_ended
  reconcile_agreements now moment s = from_chain (a.reader.block_number moment) >>= λ head.
      read_agreements head (moment + 1) >>= λ live.
      let r = match_chain now live s in ok (head, r.1, close_ended head (moment + 3) r.0)
