-- ===== src/Agent/Discovery.antt =====
-- agent.rs `discovery_poll`: the two reconciles, then the offers and the acceptances they earn.
-- Whether a tunnel port is bound is asked of the host, by the moment of the question.
use arkiv_community_lb.Base.Results.{Result, ok, err}
use arkiv_community_lb.Base.{
  ◌%◌, u64_mod, ℕ, suc, ◌+◌, ◌-◌, ◌*◌, Bool, true, false, ◌||◌, Option, none, some, List, [], ◌∷◌,
  map, any, filter, length, leb, ◌==◌, if◌then◌else◌,
}
use arkiv_community_lb.Config.{as_secs, remote_ports}
use arkiv_community_lb.Chain.Attributes.{key}
use arkiv_community_lb.Chain.Records.{
  Agreement, Offer, Stored, encode_agreement, encode_counter, offer_record,
}
use arkiv_community_lb.Chain.Reader.{
  Query, Page, ReadError, attribute, expires_after, expires_by, of_kind, narrowed,
}
use arkiv_community_lb.Chain.Writer.{Created, seconds, WriteError, unresolved, Sent}
use arkiv_community_lb.Agent.Defs.{
  OpenCounter, Live, KnownAgreements, State, Agent, ReconcileError, chain, too_many, alter, blocks,
  sort_by_creation, decode_all, opening,
}
use arkiv_community_lb.Agent.Reconcile.{providers, enter, reconcile_agreements}
use arkiv_community_lb.Agent.Counters.{Counters, reconcile_counters}

abbrev pub contains : List ℕ → ℕ → Bool
contains xs x = any (λ y. y == x) xs

-- The lowest candidate that is neither used nor bound; a bound one counts as used from then on.
unfoldable pub pick_port : (bound : ℕ → Bool) → List ℕ → List ℕ → Option ℕ × List ℕ
pick_port bound [] used = (none, used)
pick_port bound (p ∷ ps) used =
    let rest = pick_port bound ps (if contains used p then used else p ∷ used) in
    if contains used p || bound p then rest else (some p, used)

-- The variables of the loop over the offers, and the moment that the next call is made at.
pub record Turn : Type 0 where
  pub accepted_providers : List ℕ
  pub used_ports : List ℕ
  pub accepted : ℕ
  pub moment : ℕ
  pub state : State

pub data Next : Type 0 where
  go stop : Turn → Next

-- Goes on with the rest of a loop, or breaks out of it.
abbrev pub continue : (Turn → Turn) → Next → Turn
continue rest (go t) = rest t
continue rest (stop t) = t

abbrev pub offers_of : KnownAgreements → List ℕ
offers_of known = map (λ (p : ℕ × Live). p.1.agreement.content.offer) known

abbrev pub ports_of : KnownAgreements → List ℕ
ports_of known = map (λ (p : ℕ × Live). p.1.agreement.content.remote_port) known

module _ (a : Agent) (now head : ℕ) where
  abbrev pub agreed : Stored Offer → (port : ℕ) → Agreement
  agreed offer port = record {
    provider = offer.creator;
    offer = offer.key;
    wei_per_call = a.config.wei_per_call;
    remote_port = port;
  }

  abbrev pub opened : Result WriteError Created → Option OpenCounter
  opened (ok created) = some (record { key = created.entity_key; opened_block = head })
  opened (err _) = none

  -- The first counter record of an agreement.
  unfoldable pub open_first : (moment : ℕ) → Agreement → (agreement : ℕ) → Option OpenCounter
  unfolding opening encode_counter
  open_first moment r agreement = opened (
      a.writer.create moment (record {
        attributes = encode_counter a.codec (opening r agreement head);
        expiration = seconds (as_secs a.config.counter_record_life);
      }))

  -- What the answer to the agreement's create is taken for: whether the slot and the port are held.
  unfoldable pub settle_acceptance :
      (moment : ℕ) → Agreement → Result WriteError Created → State → Bool × State
  unfolding open_first enter alter
  settle_acceptance moment r (err (unresolved _ _)) s = (true, s)
  settle_acceptance moment r (err _) s = (false, s)
  settle_acceptance moment r (ok created) s =
      let t =
        enter a now
          (record {
            key = created.entity_key;
            creator = a.identity.address;
            created_at = head;
            expires_at = created.expires_at;
            content = r;
          })
          s in
      let counter = open_first moment r created.entity_key in
      (
        true,
        record t {
          agreements =
              alter created.entity_key (λ (l : Live). record l { counter = counter }) t.agreements;
        },
      )

  -- `accept`
  unfoldable pub accept : (moment : ℕ) → Stored Offer → (port : ℕ) → State → Bool × State
  unfolding settle_acceptance encode_agreement
  accept moment offer port s =
      settle_acceptance (suc moment) (agreed offer port)
        (a.writer.create moment (record {
          attributes = encode_agreement a.codec (agreed offer port);
          expiration = seconds (as_secs a.config.offer_max_lifetime);
        }))
        s

  module _ (bound : (moment port : ℕ) → Bool) (free : ℕ) (taken_offers : List ℕ) where
    -- An acceptance on a port, and what it holds.
    unfoldable pub take_up : Stored Offer → (port : ℕ) → Turn → Turn
    unfolding accept
    take_up offer port t =
        let r = accept t.moment offer port t.state in
        if r.0
        then record {
          accepted_providers = offer.creator ∷ t.accepted_providers;
          used_ports = port ∷ t.used_ports;
          accepted = suc t.accepted;
          moment = t.moment + 2;
          state = r.1;
        }
        else record t { moment = t.moment + 2; state = r.1 }

    -- One turn of the loop over the offers.
    unfoldable pub turn : Stored Offer → Turn → Next
    unfolding pick_port take_up remote_ports
    turn offer t =
        if leb free t.accepted
          || (contains taken_offers offer.key || contains t.accepted_providers offer.creator)
        then go t
        else (let r = pick_port (bound t.moment) (remote_ports a.config) t.used_ports in
            elim r.0 [
              | none ↦ stop (record t { used_ports = r.1 })
              | some port ↦ go (take_up offer port (record t { used_ports = r.1 }))
            ])

    unfoldable pub offers_loop : List (Stored Offer) → Turn → Turn
    unfolding turn
    offers_loop [] t = t
    offers_loop (offer ∷ offers) t = continue (offers_loop offers) (turn offer t)

  -- The offers of a page that are for this chain, oldest first.
  unfoldable pub seen_offers : Page → List (Stored Offer)
  unfolding decode_all sort_by_creation
  seen_offers page = sort_by_creation (
      filter (λ (o : Stored Offer). o.content.specs.chain_id == a.identity.chain_id)
        (decode_all a.codec (offer_record a.codec) page.entities))

  unfoldable pub offer_query : Query
  unfolding narrowed of_kind blocks
  offer_query = narrowed (expires_by ((head + blocks a.config.offer_max_lifetime) % u64_mod)) (
      narrowed (expires_after head)
        (narrowed (attribute "lb_listing" (key a.listing_key)) (of_kind "rpc.offer")))

  -- The acceptances, from the offers that were seen.
  unfoldable pub accept_offers :
      (bound : (moment port : ℕ) → Bool) → (moment : ℕ) → List (Stored Offer) → State → State
  unfolding offers_loop
  accept_offers bound moment offers s =
      (offers_loop bound (a.config.max_providers - length s.agreements) (offers_of s.agreements)
        offers
        (record {
          accepted_providers = providers s.agreements;
          used_ports = ports_of s.agreements;
          accepted = 0;
          moment = moment;
          state = s;
        })).state

  abbrev pub with_page :
      (bound : (moment port : ℕ) → Bool) → (moment : ℕ) → Result ReadError Page → State → State
  with_page bound moment (err _) s = s
  with_page bound moment (ok page) s = accept_offers bound moment (seen_offers page) s

  -- `discover_offers`
  unfoldable pub discover_offers : (bound : (moment port : ℕ) → Bool) → (moment : ℕ) → State → State
  unfolding accept_offers seen_offers offer_query
  discover_offers bound moment s =
      with_page bound (suc moment) (a.reader.query moment offer_query) s

  -- The part of a poll that follows the agreements' reconcile; counters that could not be read are
  -- left as memory has them.
  abbrev pub with_counters : Result ReconcileError (Counters × State) → State → State
  with_counters (ok r) s = r.1
  with_counters (err _) s = s

  unfoldable pub poll_from : (bound : (moment port : ℕ) → Bool) → (moment : ℕ) → State → State
  unfolding reconcile_counters discover_offers
  poll_from bound moment s =
      discover_offers bound (moment + 2 + length s.agreements)
        (with_counters (reconcile_counters a head moment s) s)

module _ (a : Agent) (now : ℕ) (bound : (moment port : ℕ) → Bool) where
  abbrev pub at_head : Result ReadError ℕ → (moment : ℕ) → State → State
  at_head (err _) moment s = s
  at_head (ok head) moment s = poll_from a now head bound moment s

  abbrev pub after_reconcile :
      (moment : ℕ) → Result ReconcileError (ℕ × State × List Sent) → State → State
  after_reconcile moment (ok r) s =
      poll_from a now r.0 bound (moment + 3 + 2 * length s.agreements) r.1
  after_reconcile moment (err (too_many _ _)) s =
      at_head (a.reader.block_number (moment + 3)) (moment + 4) s
  after_reconcile moment (err (chain _)) s = s

  -- `discovery_poll`
  unfoldable pub discovery_poll : (moment : ℕ) → State → State
  unfolding reconcile_agreements poll_from
  discovery_poll moment s = after_reconcile moment (reconcile_agreements a now moment s) s
