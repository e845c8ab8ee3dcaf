-- ===== src/Agent/Starting.antt =====
-- agent.rs `Agent::start` and `ensure_listing`: the state read back from the chain, then the listing.
use arkiv_community_lb.Base.Results.{Result, ok, err, ◌>>=◌}
use arkiv_community_lb.Base.{
  ℕ, suc, ◌+◌, str_eq, Bool, ◌&&◌, List, [], ◌∷◌, length, ◌==◌, if◌then◌else◌,
}
use arkiv_community_lb.Pool.Defs.{Pool}
use arkiv_community_lb.Config.{as_secs}
use arkiv_community_lb.Chain.Attributes.{keep}
use arkiv_community_lb.Chain.Records.{LbListing, Stored, encode_listing, listing_record}
use arkiv_community_lb.Chain.Reader.{Query, ReadError, creator, expires_after, of_kind, narrowed}
use arkiv_community_lb.Chain.Writer.{seconds, Identity, WriteError}
use arkiv_community_lb.Agent.Defs.{
  State, Agent, ReconcileError, too_many, sort_by_creation, decode_all,
}
use arkiv_community_lb.Agent.Reconcile.{reconcile_agreements}
use arkiv_community_lb.Agent.Counters.{reconcile_counters}

-- `StartError`; the errors under it are kept.
pub data StartError : Type 0 where
  sidecar listing : WriteError → StartError
  chain : ReadError → StartError
  too_many_agreements too_many_counters : (count : ℕ) → StartError

abbrev pub or_error : {E F T : Type 0} → (E → F) → Result E T → Result F T
or_error f (ok t) = ok t
or_error f (err e) = err (f e)

abbrev pub agreements_error : ReconcileError → StartError
agreements_error (ReconcileError.chain e) = StartError.chain e
agreements_error (too_many _ count) = too_many_agreements count

abbrev pub counters_error : ReconcileError → StartError
counters_error (ReconcileError.chain e) = StartError.chain e
counters_error (too_many _ count) = too_many_counters count

-- The derived `==` of `LbListing`
unfoldable pub same_listing : LbListing → LbListing → Bool
same_listing l m =
    l.wei_per_call == m.wei_per_call
    && (str_eq l.tunnel_server m.tunnel_server && l.max_providers == m.max_providers)

-- The agent with the identity that the sidecar told, and no listing yet.
abbrev pub unlisted : Agent → Identity → Agent
unlisted a i = record a { identity = i; listing_key = 0; listing_expires_at = 0 }

module _ (a : Agent) where
  -- The listing that the configuration asks for.
  abbrev pub desired : LbListing
  desired = record {
    wei_per_call = a.config.wei_per_call;
    tunnel_server = a.config.tunnel_server;
    max_providers = a.config.max_providers;
  }

  unfoldable pub listing_query : (head : ℕ) → Query
  unfolding narrowed of_kind
  listing_query head =
      narrowed (expires_after head)
        (narrowed (creator a.identity.address) (of_kind "rpc.lb_listing"))

  -- The oldest listing is kept, and patched if it differs; without one, a listing is created. Gives
  -- its key and its expiry.
  unfoldable pub keep_listing : (moment : ℕ) → List (Stored LbListing) → Result StartError (ℕ × ℕ)
  unfolding encode_listing keep same_listing
  keep_listing moment [] =
      or_error listing (
        a.writer.create moment (record {
          attributes = encode_listing a.codec desired;
          expiration = seconds (as_secs a.config.listing_life);
        }))
      >>= λ created. ok (created.entity_key, created.expires_at)
  keep_listing moment (kept ∷ _) =
      if same_listing kept.content desired
      then ok (kept.key, kept.expires_at)
      else (or_error listing (
            a.writer.patch moment (record {
              entity_key = kept.key;
              set = keep ("payload" ∷ []) (encode_listing a.codec desired);
            }))
          >>= λ _. ok (kept.key, kept.expires_at))

  unfoldable pub ensure_listing : (head moment : ℕ) → Result StartError (ℕ × ℕ)
  unfolding listing_query decode_all sort_by_creation keep_listing
  ensure_listing head moment =
      or_error StartError.chain (a.reader.query moment (listing_query head)) >>= λ page.
      keep_listing (suc moment)
        (sort_by_creation (decode_all a.codec (listing_record a.codec) page.entities))

-- `Agent::start`, given the configuration, the reader and the writer in `a`, and the pool. The
-- integrity checker is added later.
unfoldable pub start : (a : Agent) (now moment : ℕ) → Pool → Result StartError (Agent × State)
unfolding reconcile_agreements reconcile_counters ensure_listing
start a now moment pool = or_error sidecar (a.writer.identity moment) >>= λ i.
    let b = unlisted a i in
    or_error agreements_error
      (reconcile_agreements b now (moment + 1) (record { agreements = []; pool = pool }))
    >>= λ r. or_error counters_error (reconcile_counters b r.0 (moment + 4) r.1) >>= λ c.
        let after = moment + 6 + length (r.1).agreements in
        or_error StartError.chain (b.reader.block_number after) >>= λ head.
        ensure_listing b head (suc after) >>= λ l.
        ok (record b { listing_key = l.0; listing_expires_at = l.1 }, c.1)
