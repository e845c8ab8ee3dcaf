-- ===== src/Admin.antt =====
-- crates/lb/src/admin.rs: the status rows and the forward to one provider. The admission route is in
-- Agent/Admitting. How a key is printed in hex and how a text is quoted are the library's.
use Prim.Native.String.{◌++◌ as concat}
use arkiv_community_lb.Base.Int.{ℤ}
use arkiv_community_lb.Base.{ℕ, ◌≡◌, String, Bool, Option, none, some, List, map}
use arkiv_community_lb.Jsonrpc.{Json, text, object, field, end, response_too_large}
use arkiv_community_lb.Forwarder.{Sent, Outcome, answer, no_answer, timed_out, too_large, attempt}
use arkiv_community_lb.Provider.Defs.{
  Provider, Verdict, Source, matching, stale, divergence, unknown, static, marketplace, eligible,
  ineligibility_reason, last_height, last_probe, last_verdict,
}
use arkiv_community_lb.Pool.Defs.{Pool, get}
use arkiv_community_lb.Proxy.{
  Settings, Turn, Reply, relayed, envelope, Received, refused, accepted, error, check_request,
  replied, conclude,
}

-- integrity.rs `Verdict::as_str`
abbrev pub verdict_as_str : Verdict → String
verdict_as_str matching = "match"
verdict_as_str stale = "stale"
verdict_as_str divergence = "divergence"
verdict_as_str unknown = "unknown"

pub record NodeView : Type 0 where
  pub id : String
  pub source : String
  pub url : String
  pub agreement_id : Option String
  pub eligible : Bool
  pub ineligibility_reason : Option String
  pub chain_verified : Bool
  pub health_streak : ℤ
  pub last_height : Option ℕ
  pub served_period : ℕ
  pub served_total : ℕ
  pub transport_failures : ℕ
  pub last_probe_ms : Option ℕ
  pub integrity_verdict : Option String
  pub integrity_height : Option ℕ

abbrev source_of : (hex : ℕ → String) → Source → String × Option String
source_of hex static = ("static", none)
source_of hex (marketplace _ key _) = ("marketplace", some (hex key))

abbrev verdict_of : Option (Verdict × ℕ) → Option String
verdict_of none = none
verdict_of (some (verdict, _)) = some (verdict_as_str verdict)

abbrev height_of : Option (Verdict × ℕ) → Option ℕ
height_of none = none
height_of (some (_, height)) = some height

-- `NodeView::from`
unfoldable pub node_view : (hex : ℕ → String) → Provider → NodeView
unfolding eligible ineligibility_reason last_height last_probe last_verdict
node_view hex p =
    let (source, agreement_id) = source_of hex p.source in
    record {
      id = p.id;
      source = source;
      url = p.url;
      agreement_id = agreement_id;
      eligible = eligible p;
      ineligibility_reason = ineligibility_reason p;
      chain_verified = p.chain_verified;
      health_streak = p.health_streak;
      last_height = last_height p;
      served_period = p.served;
      served_total = p.served_total;
      transport_failures = p.transport_failures;
      last_probe_ms = last_probe p;
      integrity_verdict = verdict_of (last_verdict p);
      integrity_height = height_of (last_verdict p);
    }

unfoldable pub nodes : (hex : ℕ → String) → Pool → List NodeView
unfolding node_view
nodes hex s = map (λ h. node_view hex (s.entry h)) s.members

abbrev error_line : String → Json
error_line message = object (field "error" (text message) end)

module _ (parse_json : List ℕ → Option Json) (quoted : String → String) where
  -- The answer to what the one attempt came to.
  unfoldable pub answer_to : List ℕ → Outcome → Reply
  unfolding error
  answer_to body (answer status bytes) = relayed status bytes
  answer_to body no_answer = envelope 502 (error_line "provider did not answer")
  answer_to body timed_out = envelope 502 (error_line "provider did not answer")
  answer_to body too_large = error parse_json 502 response_too_large "lb: response too large" body

  -- `forward_to_node`, with how the provider's endpoint treats the request; the pool is only read.
  unfoldable pub forward_to_node :
      (max_response_size attempt_timeout : ℕ)
      → (Provider → List ℕ → ℕ → Sent)
      → Pool
      → (id : String) → Received
      → Reply
  unfolding get check_request attempt answer_to
  forward_to_node max_response_size attempt_timeout send s id received = elim (get id s) [
    | none ↦ envelope 404 (error_line (concat "no provider " (quoted id)))
    | some h ↦ elim (check_request parse_json received) [
      | refused reply ↦ reply
      | accepted body ↦
          answer_to body
            (attempt parse_json max_response_size (send (s.entry h) body attempt_timeout))
    ]
  ]

  -- Where an attempt ends a client's request with a reply, the forward to the same provider replies
  -- the same to what the attempt came to.
  pub answer_to-conclude :
      (cfg : Settings) (body : List ℕ) (t : Turn) (h : ℕ) (s later : Pool) (o : Outcome)
      (reply : Reply)
      → conclude parse_json cfg body t h s o ≡ replied reply later
      → answer_to body o ≡ reply
  unfolding conclude answer_to
  answer_to-conclude cfg body t h s later (answer status bytes) reply e = cc
  answer_to-conclude cfg body t h s later too_large reply e = cc
  answer_to-conclude cfg body t h s later no_answer reply e = cc
  answer_to-conclude cfg body t h s later timed_out reply e = cc
