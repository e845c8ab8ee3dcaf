-- ===== src/Chain/Writer/Split.antt =====
-- writer.rs: what `send` does with every operation of a batch.
use arkiv_community_lb.Base.Results.{ok, err}
use arkiv_community_lb.Base.{
  ℕ, zero, suc, ◌+◌, ◌-◌, ◌/◌, ◌≤◌, ◌≡◌, refl, ◌∙◌, sym, ap, Bool-cases, ltb, ◌⊎◌, inl, inr, Option,
  none, some, List, [], ◌∷◌, ◌++◌, map, length, take, drop, All, length-append, length-take,
  take-append-drop, append_assoc, append-nil, arith,
}
use arkiv_community_lb.Chain.Writer.{
  Batch, halves, too_large, refused, failed, unresolved, unexpected, transport, Sent,
}
use arkiv_community_lb.Chain.Writer.Sending.{reported, Outcome, parts, send_loop, send}

-- What a reported part is: not empty, and a single operation where its answer is that it is too
-- large.
abbrev pub IsSettled : Outcome → Batch → Type 0
IsSettled (err (too_large _)) batch = length batch ≡ 1
IsSettled _ batch = 1 ≤ length batch

abbrev pub IsReported : (ℕ → Batch → Outcome) → Sent → Type 0
IsReported execute s = IsSettled s.result s.batch × (call : ℕ) × (execute call s.batch ≡ s.result)

abbrev pub flat : List Batch → Batch
flat [] = []
flat (b ∷ bs) = b ++ flat bs

-- The operations of the parts, in the order of the reports.
abbrev pub sent_operations : List Sent → Batch
sent_operations sent = flat (map (λ (s : Sent). s.batch) sent)

-- The calls that a queue can need.
abbrev weight : List Batch → ℕ
weight [] = 0
weight (b ∷ bs) = length b + (length b - 1) + weight bs

abbrev IsSplit : Batch → Batch × Batch → Type 0
IsSplit b (first, second) = (first ++ second ≡ b) × (1 ≤ length first) × (1 ≤ length second)

halves_lem :
    (b : Batch)
    → 1 ≤ length b
    → ((halves b ≡ none) × (length b ≡ 1))
      ⊎ ((p : Batch × Batch) × (halves b ≡ some p) × IsSplit b p)
unfolding halves
halves_lem b h = elim (Bool-cases (ltb (length b) 2)) [
  | inl e ↦ inl (rw e refl, ground (arith, e, h))
  | inr e ↦
      let at : (1 ≤ length b / 2) × (suc (length b / 2) ≤ length b) = ground (arith, e, h) in
      let k = length b / 2 in
      let whole : length (take k b ++ drop k b) ≡ length b =
        ap (λ (l : Batch). length l) (sym (take-append-drop k b)) in
      let front = length-take k b (omega (arith, at.1)) in
      inr (
        (take k b, drop k b),
        rw e refl,
        (
          sym (take-append-drop k b),
          omega (arith, front, at.0),
          omega (arith, front, at.1, whole, length-append (take k b) (drop k b)),
        ),
      )
]

parts_lem :
    (o : Outcome) (b : Batch)
    → 1 ≤ length b
    → ((parts o b ≡ none) × IsSettled o b)
      ⊎ ((p : Batch × Batch) × (parts o b ≡ some p) × IsSplit b p)
unfolding parts
parts_lem (err (too_large l)) b h = halves_lem b h
parts_lem (err (refused l)) b h = inl (refl, h)
parts_lem (err (failed l)) b h = inl (refl, h)
parts_lem (err (unresolved t l)) b h = inl (refl, h)
parts_lem (err (unexpected s t)) b h = inl (refl, h)
parts_lem (err transport) b h = inl (refl, h)
parts_lem (ok r) b h = inl (refl, h)

module _ (execute : ℕ → Batch → Outcome) where
  -- All of a batch is reported, in its order.
  abbrev pub IsDelivery : Batch → Option (List Sent) → Type 0
  IsDelivery ops o =
      (sent : List Sent) × (o ≡ some sent)
      × (sent_operations sent ≡ ops)
      × All (IsReported execute) sent

  send_loop-none :
      (fuel call : ℕ) (b : Batch) (queue : List Batch)
      → parts (execute call b) b ≡ none
      → send_loop execute (suc fuel) call (b ∷ queue)
        ≡ reported
            (record { batch = b; result = execute call b })
            (send_loop execute fuel (suc call) queue)
  unfolding send_loop
  send_loop-none fuel call b queue e = rw (e, send_loop) refl

  send_loop-some :
      (fuel call : ℕ) (b : Batch) (queue : List Batch) (p : Batch × Batch)
      → parts (execute call b) b ≡ some p
      → send_loop execute (suc fuel) call (b ∷ queue)
        ≡ send_loop execute fuel (suc call) (p.0 ∷ p.1 ∷ queue)
  unfolding send_loop
  send_loop-some fuel call b queue p e = rw (e, send_loop) refl

  send_loop_lem :
      (fuel call : ℕ) (queue : List Batch)
      → All (λ b. 1 ≤ length b) queue
      → weight queue ≤ fuel
      → IsDelivery (flat queue) (send_loop execute fuel call queue)
  unfolding send_loop
  send_loop_lem fuel call [] p h = ([], refl, refl, tt)
  send_loop_lem zero call (b ∷ queue) p h =
      let absurd : ⊥ = omega (arith, h, p.0) in elim absurd [ ]
  send_loop_lem (suc fuel) call (b ∷ queue) p h = elim (parts_lem (execute call b) b p.0) [
    | inl w ↦
        let d = send_loop_lem fuel (suc call) queue p.1 (omega (arith, h, p.0)) in
        let s : Sent = record { batch = b; result = execute call b } in
        (
          s ∷ d.0,
          send_loop-none fuel call b queue w.0 ∙ ap (reported s) d.1,
          ap (λ (l : Batch). b ++ l) d.2,
          ((w.1, call, refl), d.3),
        )
    | inr w ↦
        let first = (w.0).0 in
        let second = (w.0).1 in
        let total = ap (λ (l : Batch). length l) w.2.0 in
        let d =
          send_loop_lem fuel (suc call) (first ∷ second ∷ queue) (w.2.1, (w.2.2, p.1))
            (omega (arith, h, total, length-append first second, w.2.1, w.2.2)) in
        (
          d.0,
          send_loop-some fuel call b queue w.0 w.1 ∙ d.1,
          d.2
              ∙ sym (append_assoc first second (flat queue))
              ∙ ap (λ (l : Batch). l ++ flat queue) w.2.0,
          d.3,
        )
  ]

-- Whatever the sidecar answers, a call for every operation and one less for the splits is fuel
-- enough: `send` returns, its reports hold all operations of the batch in their order, each with
-- the answer that the sidecar gave to that part, no part is empty, and only a single operation is
-- reported as too large.
pub send_lem :
    (execute : ℕ → Batch → Outcome) (batch : Batch)
    → IsDelivery execute batch (send execute (length batch + length batch - 1) batch)
unfolding send
send_lem execute [] = send_loop_lem execute 0 0 [] tt (omega arith)
send_lem execute (op ∷ ops) =
    let d =
      send_loop_lem execute (length (op ∷ ops) + length (op ∷ ops) - 1) 0 ((op ∷ ops) ∷ [])
        (omega arith, tt) (omega arith) in
    (d.0, d.1, d.2 ∙ append-nil (op ∷ ops), d.3)
