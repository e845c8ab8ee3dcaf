-- ===== src/Integrity/Confirm.antt =====
-- integrity.rs: what it takes for a round to close a provider's integrity gate.
use arkiv_community_lb.Base.{
  ℕ, ◌≡◌, ◌≢◌, ◌↔◌, refl, sym, ap, ◌∙◌, subst, inl, inr, ◌⊎◌, Bool, true, false, List, [], ◌∷◌, map,
  filter, length, Member, arith, Bool-cases, ◌==◌,
}
use arkiv_community_lb.Provider.Defs.{
  Provider, Verdict, matching, stale, divergence, unknown, integrity, record_integrity,
}
use arkiv_community_lb.Provider.Gates.{GatesByte, is_open}
use arkiv_community_lb.Provider.Events.{judged, apply, run, apply-Effect}
use arkiv_community_lb.Provider.History.{run-last_ruling}
use arkiv_community_lb.Pool.Defs.{Pool, modify}
use arkiv_community_lb.Pool.Members.{Distinct}
use arkiv_community_lb.Integrity.Judge.{Finding, Expected}
use arkiv_community_lb.Integrity.Defs.{
  Look, is_divergence, find_out, check, replace_first, replace_each, confirm, record_findings,
  judge_all,
}

-- One of the list is a divergence of the provider.
abbrev pub Diverges : {V : Type 0} → ℕ → List (Finding V) → Type 0
Diverges k [] = ⊥
Diverges k (f ∷ fs) = ((f.provider ≡ k) × (f.verdict ≡ divergence)) ⊎ Diverges k fs

abbrev pub handles : {V : Type 0} → List (Finding V) → List ℕ
handles fs = map (λ (f : Finding _). f.provider) fs

record_integrity-open :
    (v : Verdict) (height : ℕ) (p : Provider)
    → GatesByte p
    → is_open integrity p ≡ true
    → is_divergence v ≡ false
    → is_open integrity (record_integrity v height p).0 ≡ true
unfolding run apply
record_integrity-open matching n p byte was e = run-last_ruling (judged matching n ∷ []) p byte
record_integrity-open stale n p byte was e = run-last_ruling (judged stale n ∷ []) p byte ∙ was
record_integrity-open unknown n p byte was e = run-last_ruling (judged unknown n ∷ []) p byte ∙ was
record_integrity-open divergence n p byte was e = cc

record_integrity-GatesByte :
    (v : Verdict) (height : ℕ) (p : Provider)
    → GatesByte p
    → GatesByte (record_integrity v height p).0
unfolding apply
record_integrity-GatesByte v n p byte = (apply-Effect (judged v n) p byte).kept

is_divergence-≡ : (v : Verdict) → is_divergence v ≡ true → v ≡ divergence
is_divergence-≡ divergence e = refl
is_divergence-≡ matching e = cc
is_divergence-≡ stale e = cc
is_divergence-≡ unknown e = cc

-- Recording closes the gate of no provider without a divergence of its own.
record_findings-Diverges :
    {V : Type 0} (height : ℕ) (fs : List (Finding V)) (s : Pool) (k : ℕ)
    → GatesByte (s.entry k)
    → is_open integrity (s.entry k) ≡ true
    → is_open integrity ((record_findings height fs s).entry k) ≡ false
    → Diverges k fs
unfolding record_findings modify
record_findings-Diverges height [] s k byte was now = cc
record_findings-Diverges height (f ∷ fs) s k byte was now =
    let s' = modify f.provider (λ p. (record_integrity f.verdict height p).0) s in
    elim (Bool-cases (k == f.provider)) [
      | inl e ↦
          let same : f.provider ≡ k = ground arith in
          elim (Bool-cases (is_divergence f.verdict)) [
            | inl d ↦ inl (same, is_divergence-≡ f.verdict d)
            | inr n ↦
                let open_ : is_open integrity (s'.entry k) ≡ true =
                  rw (e, same) (record_integrity-open f.verdict height (s.entry k) byte was n) in
                let byte' : GatesByte (s'.entry k) =
                  rw (e, same) (record_integrity-GatesByte f.verdict height (s.entry k) byte) in
                inr (record_findings-Diverges height fs s' k byte' open_ now)
          ]
      | inr e ↦ inr (record_findings-Diverges height fs s' k (rw e byte) (rw e was) now)
    ]

Diverges-Member :
    {V : Type 0} (k : ℕ) (fs : List (Finding V)) → Diverges k fs → Member k (handles fs)
Diverges-Member k [] d = elim d [ ]
Diverges-Member k (f ∷ fs) (inl d) = inl (sym d.0)
Diverges-Member k (f ∷ fs) (inr d) = inr (Diverges-Member k fs d)

Member-empty : (xs : List ℕ) (k : ℕ) → length xs == 0 ≡ true → ¬ (Member k xs)
Member-empty [] k e m = m
Member-empty (x ∷ xs) k e m = ground arith

handles-replace_first :
    {V : Type 0} (g : Finding V) (fs : List (Finding V)) → handles (replace_first g fs) ≡ handles fs
unfolding replace_first
handles-replace_first g [] = refl
handles-replace_first g (f ∷ fs) = elim (Bool-cases (f.provider == g.provider)) [
  | inl e ↦
      let same : g.provider ≡ f.provider = ground arith in rw e (ap (λ h. h ∷ handles fs) same)
  | inr e ↦ rw e (ap (◌∷◌ f.provider) (handles-replace_first g fs))
]

replace_first-Diverges :
    {V : Type 0} (g : Finding V) (fs : List (Finding V)) (k : ℕ)
    → Distinct (handles fs)
    → Diverges k (replace_first g fs)
    → ((g.provider ≡ k) × (g.verdict ≡ divergence)) ⊎ ((k ≢ g.provider) × Diverges k fs)
unfolding replace_first
replace_first-Diverges g [] k d h = elim h [ ]
replace_first-Diverges g (f ∷ fs) k d h = elim (Bool-cases (f.provider == g.provider)) [
  | inl e ↦ elim (rw e at h) [
    | inl this ↦ inl this
    | inr rest ↦
        let same : f.provider ≡ g.provider = ground arith in
        inr (
          (λ q.
              d.0 (subst (λ j. Member j (handles fs)) (q ∙ sym same) (Diverges-Member k fs rest))),
          inr rest,
        )
  ]
  | inr e ↦ elim (rw e at h) [
    | inl this ↦
        let other : f.provider ≢ g.provider = ground arith in
        inr ((λ q. other (this.0 ∙ q)), inl this)
    | inr rest ↦ elim (replace_first-Diverges g fs k d.1 rest) [
      | inl this ↦ inl this
      | inr (n, m) ↦ inr (n, inr m)
    ]
  ]
]

-- The answers come from those who were asked, and from all of them.
abbrev pub AnswersAll : {V : Type 0} → Look V → Type 0
AnswersAll look = (asked : List ℕ) (h : ℕ) → Member h (look.order asked) ↔ Member h asked

module _ {V : Type 0} (same_value : V → V → Bool) (e : Expected V) where
  -- What one look at a provider says.
  abbrev pub looks : Look V → ℕ → Verdict
  looks look k = (find_out same_value look e k).verdict

  abbrev found : Look V → List ℕ → List (Finding V)
  found look hs = map (find_out same_value look e) hs

  handles-found : (look : Look V) (hs : List ℕ) → handles (found look hs) ≡ hs
  unfolding find_out
  handles-found look [] = refl
  handles-found look (h ∷ hs) = ap (◌∷◌ h) (handles-found look hs)

  -- A divergence of the list after the replacements is one of the second look, or one of the
  -- first list whose provider was not looked at again.
  replace_each-Diverges :
      (second : Look V) (os : List ℕ) (fs : List (Finding V)) (k : ℕ)
      → Distinct (handles fs)
      → Diverges k (replace_each (found second os) fs)
      → (Member k os × (looks second k ≡ divergence)) ⊎ ((¬ (Member k os)) × Diverges k fs)
  unfolding replace_each find_out
  replace_each-Diverges second [] fs k d h = inr ((λ m. m), h)
  replace_each-Diverges second (o ∷ os) fs k d h =
      let g = find_out same_value second e o in
      let d' = subst Distinct (sym (handles-replace_first g fs)) d in
      elim (replace_each-Diverges second os (replace_first g fs) k d' h) [
        | inl (m, v) ↦ inl (inr m, v)
        | inr (n, m) ↦ elim (replace_first-Diverges g fs k d m) [
          | inl (same, v) ↦ inl (inl (sym same), subst (λ j. looks second j ≡ divergence) same v)
          | inr (other, m') ↦ inr ((λ q. elim q [ inl p ↦ other p | inr p ↦ n p ]), m')
        ]
      ]

  abbrev doubtful : List (Finding V) → List ℕ
  doubtful fs = handles (filter (λ (f : Finding V). is_divergence f.verdict) fs)

  Member-doubtful :
      (look : Look V) (hs : List ℕ) (k : ℕ)
      → Member k (doubtful (found look hs))
      → looks look k ≡ divergence
  unfolding find_out
  Member-doubtful look [] k m = elim m [ ]
  Member-doubtful look (h ∷ hs) k m = elim (Bool-cases (is_divergence (looks look h))) [
    | inl d ↦ elim (rw d at m) [
      | inl same ↦ subst (λ j. looks look j ≡ divergence) (sym same) (is_divergence-≡ _ d)
      | inr rest ↦ Member-doubtful look hs k rest
    ]
    | inr n ↦ Member-doubtful look hs k (rw n at m)
  ]

  Diverges-doubtful : (fs : List (Finding V)) (k : ℕ) → Diverges k fs → Member k (doubtful fs)
  Diverges-doubtful [] k d = elim d [ ]
  Diverges-doubtful (f ∷ fs) k (inl d) = rw d.1 (inl (sym d.0))
  Diverges-doubtful (f ∷ fs) k (inr d) = elim (Bool-cases (is_divergence f.verdict)) [
    | inl t ↦ rw t (inr (Diverges-doubtful fs k d))
    | inr n ↦ rw n (Diverges-doubtful fs k d)
  ]

  confirm-Diverges :
      (second : Look V) (look : Look V) (hs : List ℕ) (k : ℕ)
      → Distinct hs
      → AnswersAll second
      → Diverges k (confirm same_value second e (found look hs))
      → (looks look k ≡ divergence) × (looks second k ≡ divergence)
  unfolding confirm check
  confirm-Diverges second look hs k d all_answer h =
      let fs = found look hs in
      let ds = doubtful fs in
      elim (Bool-cases (length ds == 0)) [
        | inl none_ ↦ absurd (Member-empty ds k none_ (Diverges-doubtful fs k (rw none_ at h)))
        | inr some_ ↦
            elim (replace_each-Diverges second (second.order ds) fs k
              (subst Distinct (sym (handles-found look hs)) d) (rw some_ at h)) [
                | inl (m, v) ↦ (Member-doubtful look hs k ((all_answer ds k).0 m), v)
                | inr (n, m) ↦ absurd (n ((all_answer ds k).1 (Diverges-doubtful fs k m)))
              ]
      ]

  -- A round takes a provider out by the integrity gate only if both of its looks at the provider
  -- judged a divergence: one wrong read costs nobody the rotation. No provider answers the first
  -- look twice, and the second look's answers come from those who were asked, and from all of them.
  pub judge_all-Diverges :
      (first second : Look V) (providers : List ℕ) (s : Pool) (k : ℕ)
      → Distinct (first.order providers)
      → AnswersAll second
      → GatesByte (s.entry k)
      → is_open integrity (s.entry k) ≡ true
      → is_open integrity ((judge_all same_value first second e providers s).entry k) ≡ false
      → (looks first k ≡ divergence) × (looks second k ≡ divergence)
  unfolding judge_all check
  judge_all-Diverges first second providers s k d all_answer byte was now =
      let fs = confirm same_value second e (found first (first.order providers)) in
      confirm-Diverges second first (first.order providers) k d all_answer
        (record_findings-Diverges e.finalized.number fs s k byte was now)
