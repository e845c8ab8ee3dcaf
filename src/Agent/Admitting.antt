-- ===== src/Agent/Admitting.antt =====
-- admin.rs `admission`, the route that the tunnel server calls back, over the agreements in memory.
use arkiv_community_lb.Base.Results.{Result, ok, err}
use arkiv_community_lb.Base.{
  ℕ, ◌≡◌, refl, ap, subst, inl, inr, ◌⊎◌, String, str_eq, Bool, false, Option, none, some, List, [],
  ◌∷◌, ◌∙◌, ◌+◌, All, Option-cases, some-eq, if◌then◌else◌,
}
use arkiv_community_lb.Jsonrpc.{Json}
use arkiv_community_lb.Chain.Records.{Agreement, Stored}
use arkiv_community_lb.Chain.Writer.{Sent}
use arkiv_community_lb.Admission.{Op, login, new_proxy, Rejection, Crypto, decision}
use arkiv_community_lb.Admission.Entitled.{Entitled, decision-Entitled}
use arkiv_community_lb.Agent.Defs.{Live, KnownAgreements, State, Agent, lookup}
use arkiv_community_lb.Agent.Known.{lookup-All}
use arkiv_community_lb.Agent.Reconcile.{read_agreements, reconcile_agreements}
use arkiv_community_lb.Agent.Adoption.{IsConsistent}
use arkiv_community_lb.Agent.Matching.{IsCurrent, reconcile_agreements_lem}
use arkiv_community_lb.Agent.Refresh.{admitted}

pub record FrpsRequest : Type 0 where
  pub op : String
  pub content : Json

pub record Metas : Type 0 where
  pub agreement : Option String
  pub token : Option String

pub record LoginContent : Type 0 where
  pub metas : Metas
  pub client_address : String

pub record UserInfo : Type 0 where
  pub metas : Metas

pub record NewProxyContent : Type 0 where
  pub user : UserInfo
  pub proxy_name : String
  pub remote_port : ℕ

-- The library's parse of a content, which may fail.
pub record Contents : Type 0 where
  pub login_content : Json → Option LoginContent
  pub new_proxy_content : Json → Option NewProxyContent

-- What a request asks: an op that the route decides, another one, or one that does not parse.
pub data Asked : Type 0 where
  decided : Op → Metas → Asked
  passed unreadable : Asked

pub data Answer : Type 0 where
  unchange bad_request : Answer
  reject : Rejection → Answer

abbrev of_login : Option LoginContent → Asked
of_login none = unreadable
of_login (some t) = decided login t.metas

abbrev of_new_proxy : Option NewProxyContent → Asked
of_new_proxy none = unreadable
of_new_proxy (some p) = decided (new_proxy p.remote_port p.proxy_name) p.user.metas

unfoldable pub asked : Contents → FrpsRequest → Asked
asked f request =
    if str_eq request.op "Login"
    then of_login (f.login_content request.content)
    else (if str_eq request.op "NewProxy"
        then of_new_proxy (f.new_proxy_content request.content)
        else passed)

-- `Agent::agreement`
unfoldable pub agreement : KnownAgreements → ℕ → Option (Stored Agreement)
unfolding lookup
agreement known key = elim (lookup key known) [ none ↦ none | some l ↦ some l.agreement ]

-- The callback as the decision has it, in a list of agreements by their keys.
unfoldable pub decided_in :
    Crypto → KnownAgreements → Op → Metas → Result Rejection (Stored Agreement)
unfolding agreement decision
decided_in c known op metas = decision c op (agreement known) metas.agreement metas.token

module _ (a : Agent) where
  -- The steps that follow start at the proxy, and not at the login.
  unfoldable pub follow_up : (now : ℕ) → Op → Stored Agreement → State → Bool × State
  unfolding admitted
  follow_up now login stored s = (false, s)
  follow_up now (new_proxy _ _) stored s = admitted a now stored.key s

  unfoldable pub answered :
      (now : ℕ) → Op → State → Result Rejection (Stored Agreement) → Answer × Bool × State
  unfolding follow_up
  answered now op s (err rejection) = (reject rejection, false, s)
  answered now op s (ok stored) = let r = follow_up now op stored s in (unchange, r.0, r.1)

  unfoldable pub answer : (now : ℕ) → Crypto → State → Asked → Answer × Bool × State
  unfolding answered decided_in
  answer now c s unreadable = (bad_request, false, s)
  answer now c s passed = (unchange, false, s)
  answer now c s (decided op metas) = answered now op s (decided_in c s.agreements op metas)

  -- `admission`: the answer, whether the steps that follow are started, and what memory is then.
  unfoldable pub admission_route :
      (now : ℕ) → Crypto → Contents → Option FrpsRequest → State → Answer × Bool × State
  unfolding asked answer
  admission_route now c f none s = (bad_request, false, s)
  admission_route now c f (some request) s = answer now c s (asked f request)

-- A record with this agreement's key and blocks is among the ones read.
abbrev pub IsListed : List (Stored Agreement) → Stored Agreement → Type 0
IsListed [] t = ⊥
IsListed (r ∷ live) t =
    ((r.key ≡ t.key) × (r.created_at ≡ t.created_at) × (r.expires_at ≡ t.expires_at))
    ⊎ IsListed live t

IsCurrent-IsListed :
    (live : List (Stored Agreement)) (k : ℕ) (l : Live)
    → k ≡ l.agreement.key
    → IsCurrent live (k, l)
    → IsListed live l.agreement
IsCurrent-IsListed [] k l q h = h
IsCurrent-IsListed (r ∷ live) k l q (inl h) = inl (h.0 ∙ q, h.1, h.2)
IsCurrent-IsListed (r ∷ live) k l q (inr h) = inr (IsCurrent-IsListed live k l q h)

agreement-some :
    (known : KnownAgreements) (k : ℕ) (t : Stored Agreement)
    → agreement known k ≡ some t
    → (l : Live) × (lookup k known ≡ some l) × (l.agreement ≡ t)
unfolding agreement
agreement-some known k t h = elim (Option-cases (lookup k known)) [
  | inl e ↦ cc (rw (e, agreement) at h)
  | inr e ↦ (e.0, e.1, some-eq (rw (e.1, agreement) at h))
]

answered-unchange :
    (a : Agent) (now : ℕ) (op : Op) (s : State) (d : Result Rejection (Stored Agreement))
    → (answered a now op s d).0 ≡ unchange
    → (t : Stored Agreement) × (d ≡ ok t)
unfolding answered
answered-unchange a now op s (ok t) h = (t, refl)
answered-unchange a now op s (err e) h = cc

-- What lets a client in: it is entitled to an agreement in memory, and the agreement is the one that
-- its token names and one of those read on the chain.
pub record IsLetIn (c : Crypto) (op : Op) (metas : Metas) (known : KnownAgreements)
    (live : List (Stored Agreement)) : Type 0 where
  pub stored : Stored Agreement
  pub entitled : Entitled c op (agreement known) metas.agreement metas.token stored
  pub named : entitled.key ≡ stored.key
  pub listed : IsListed live stored

decided_in-IsLetIn :
    (c : Crypto) (op : Op) (metas : Metas) (known : KnownAgreements)
    (live : List (Stored Agreement)) (t : Stored Agreement)
    → IsConsistent known
    → All (IsCurrent live) known
    → decided_in c known op metas ≡ ok t
    → IsLetIn c op metas known live
unfolding decision decided_in
decided_in-IsLetIn c op metas known live t w current h =
    let e = (decision-Entitled c op (agreement known) metas.agreement metas.token t).0 h in
    let (l, found, q) = agreement-some known e.key t e.is_live in
    let key = lookup-All (λ p. p.0 ≡ p.1.agreement.key) e.key known l w.keyed found in
    record {
      stored = t;
      entitled = e;
      named = key ∙ ap (λ (x : Stored Agreement). x.key) q;
      listed = subst (IsListed live) q (
          IsCurrent-IsListed live e.key l key
            (lookup-All (IsCurrent live) e.key known l current found));
    }

-- After a reconcile that succeeded, from a memory in order, a callback of an op that the route decides
-- is answered with a way in only for an agreement which the reconcile read on the chain and whose key
-- the client's metadata name, with the agreement's provider as the token's signer and, for a proxy,
-- the agreement's port and the name for it.
pub admission_route-IsLetIn :
    (a : Agent) (now moment : ℕ) (s : State) (r : ℕ × State × List Sent) (later : ℕ) (c : Crypto)
    (f : Contents) (request : FrpsRequest) (op : Op) (metas : Metas)
    → IsConsistent s.agreements
    → reconcile_agreements a now moment s ≡ ok r
    → asked f request ≡ decided op metas
    → (admission_route a later c f (some request) r.1).0 ≡ unchange
    → (live : List (Stored Agreement)) × (read_agreements a r.0 (moment + 1) ≡ ok live)
      × IsLetIn c op metas r.1.agreements live
unfolding admission_route answer
admission_route-IsLetIn a now moment s r later c f request op metas w h q way =
    let (live, e, matched) = reconcile_agreements_lem a now moment s r w h in
    let known = r.1.agreements in
    let (t, g) =
      answered-unchange a later op r.1 (decided_in c known op metas)
        (rw (q, admission_route) at way) in
    (live, e, decided_in-IsLetIn c op metas known live t matched.0 matched.1 g)
