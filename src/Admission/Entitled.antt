-- ===== src/Admission/Entitled.antt =====
-- admission.rs: what a client must bring to be let in.
use arkiv_community_lb.Base.{
  ℕ, ◌≡◌, ◌↔◌, ◌∙◌, sym, ap, subst, inl, inr, String, str_eq, eq_iff, Option, none, some,
  Bool-cases, Option-cases, some-eq, arith, ◌==◌,
}
use mathlib.Core.Path.{ap₂}
use arkiv_community_lb.Base.Results.{ok, ok-eq}
use arkiv_community_lb.Chain.Records.{Agreement, Stored}
use arkiv_community_lb.Admission.{
  Op, login, new_proxy, Crypto, proxy_name, token_message, parsed, parse_token, check_op,
  check_signer, decide_admission, decision,
}

-- The port and the name that a proxy asks for are the agreement's.
abbrev pub Asks : Crypto → Stored Agreement → Op → Type 0
Asks c s login = Unit
Asks c s (new_proxy remote_port name) =
    (remote_port ≡ s.content.remote_port) × (name ≡ proxy_name c s.content.remote_port)

pub record Entitled (c : Crypto) (op : Op) (live : ℕ → Option (Stored Agreement))
    (agreement token : Option String) (s : Stored Agreement) : Type 0 where
  pub key : ℕ
  pub signature : c.Signature
  pub names_key : parsed c.parse_key agreement ≡ some key
  pub carries : parsed c.parse_signature token ≡ some signature
  pub is_live : live key ≡ some s
  pub signed : c.recover signature (token_message c key) ≡ some s.content.provider
  pub asks : Asks c s op

check_op-Asks :
    (c : Crypto) (op : Op) (s t : Stored Agreement)
    → (check_op c op s ≡ ok t) ↔ ((s ≡ t) × Asks c s op)
unfolding check_op
check_op-Asks c login s t = ((λ h. (ok-eq h, tt)), (λ h. ap ok h.0))
check_op-Asks c (new_proxy port name) s t =
    let assigned = s.content.remote_port in
    let named = eq_iff name (proxy_name c assigned) in
    elim (Bool-cases (port == assigned)) [
      | inr e ↦ ((λ h. cc (rw e at h)), (λ h. let q = h.1.0 in ground arith))
      | inl e ↦ elim (Bool-cases (str_eq name (proxy_name c assigned))) [
        | inr e' ↦ ((λ h. cc (rw (e, e') at h)), (λ h. let q = named.1 h.1.1 in cc))
        | inl e' ↦ (
          (λ h. (ok-eq (rw (e, e') at h), (ground arith, named.0 e'))),
          (λ h. rw (e, e') (ap ok h.0)),
        )
      ]
    ]

check_signer-Asks :
    (c : Crypto) (op : Op) (s t : Stored Agreement) (signer : Option ℕ)
    → (check_signer c op s signer ≡ ok t)
      ↔ ((s ≡ t) × (signer ≡ some s.content.provider) × Asks c s op)
check_signer-Asks c op s t none = ((λ h. cc), (λ h. cc))
check_signer-Asks c op s t (some signer) = elim (Bool-cases (signer == s.content.provider)) [
  | inr e ↦ (
    (λ h. cc (rw e at h)),
    (λ h. let q : signer ≡ s.content.provider = some-eq h.1 in ground arith),
  )
  | inl e ↦
      let same : signer ≡ s.content.provider = ground arith in
      let (to, from) = check_op-Asks c op s t in
      (
        (λ h. let (q, asks) = to (rw e at h) in (q, ap some same, asks)),
        (λ h. rw e (from (h.0, h.2))),
      )
]

-- A client is let in, under an agreement, exactly when it names the agreement's key, the agreement
-- is live, the token is a signature whose signer over this key's message is the agreement's
-- provider, and a proxy asks for the agreement's port under the name for that port.
pub decision-Entitled :
    (c : Crypto) (op : Op) (live : ℕ → Option (Stored Agreement)) (agreement token : Option String)
    (s : Stored Agreement)
    → (decision c op live agreement token ≡ ok s) ↔ Entitled c op live agreement token s
unfolding decision parse_token decide_admission
decision-Entitled c op live agreement token s = elim (Option-cases (parsed c.parse_key agreement)) [
  | inl e ↦ ((λ h. cc (rw (e, decision) at h)), (λ h. let q = h.names_key in cc))
  | inr (key, e) ↦ elim (Option-cases (parsed c.parse_signature token)) [
    | inl e' ↦ ((λ h. cc (rw (e, e', decision) at h)), (λ h. let q = h.carries in cc))
    | inr (signature, e') ↦ elim (Option-cases (live key)) [
      | inl f ↦ (
        (λ h. cc (rw (e, e', f, decision) at h)),
        (λ h.
            let k = some-eq (sym e ∙ h.names_key) in
            let q : none ≡ some s = sym f ∙ ap live k ∙ h.is_live in cc),
      )
      | inr (found, f) ↦
          let (to, from) =
            check_signer-Asks c op found s (c.recover signature (token_message c key)) in
          (
            (λ h.
                let (q, signed, asks) = to (rw (e, e', f, decision) at h) in
                record {
                  key = key;
                  signature = signature;
                  names_key = e;
                  carries = e';
                  is_live = f ∙ ap some q;
                  signed = rw (← q) signed;
                  asks = rw (← q) asks;
                }),
            (λ h.
                let k = some-eq (sym e ∙ h.names_key) in
                let g = some-eq (sym e' ∙ h.carries) in
                let q : found ≡ s = some-eq (sym f ∙ ap live k ∙ h.is_live) in
                let signed =
                  ap₂ (λ x y. c.recover x (token_message c y)) g k
                  ∙ h.signed
                  ∙ ap (λ (x : Stored Agreement). some x.content.provider) (sym q) in
                rw (e, e', f, decision)
                  (from (q, signed, subst (λ x. Asks c x op) (sym q) h.asks))),
          )
    ]
  ]
]
