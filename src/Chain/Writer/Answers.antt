-- ===== src/Chain/Writer/Answers.antt =====
-- writer.rs: what the client takes an answer of the sidecar for.
use arkiv_community_lb.Base.Results.{ok, err}
use arkiv_community_lb.Base.{
  ℕ, String, Option, none, some, List, ◌≡◌, refl, ◌↔◌, arith, Option-cases, inl, inr,
}
use arkiv_community_lb.Chain.Writer.{
  ErrorLink, Response, ErrorBody, read_answer, status_error, unresolved, too_large,
}

module _ {R : Type 0} (parse : String → Option R) (parse_error : String → Option ErrorBody) where
  -- The answer is this status, and its text reads as an error.
  abbrev pub IsError : Option Response → (status : ℕ) → Response → ErrorBody → Type 0
  IsError a status r b = (a ≡ some r) × (r.status ≡ status) × (parse_error r.body ≡ some b)

  read_answer-ok :
      (a : Option Response) (x : R)
      → read_answer parse parse_error a ≡ ok x
      → (r : Response) × (a ≡ some r) × (r.status ≡ 200) × (parse r.body ≡ some x)
  unfolding read_answer status_error
  read_answer-ok none x h = ground arith
  read_answer-ok (some r) x h = (r, refl, ground arith, ground arith)

  read_answer-too_large :
      (a : Option Response) (es : List ErrorLink)
      → read_answer parse parse_error a ≡ err (too_large es)
      → (r : Response) × (b : ErrorBody) × IsError a 413 r b × (b.error ≡ es)
  unfolding read_answer status_error
  read_answer-too_large none es h = ground arith
  read_answer-too_large (some r) es h = elim (Option-cases (parse_error r.body)) [
    | inl e ↦ let absurd : ⊥ = ground arith in elim absurd [ ]
    | inr e ↦ (r, e.0, (refl, ground arith, e.1), ground arith)
  ]

  read_answer-unresolved :
      (a : Option Response) (tx : String) (es : List ErrorLink)
      → read_answer parse parse_error a ≡ err (unresolved tx es)
      → (r : Response) × (b : ErrorBody) × IsError a 504 r b
        × (b.error ≡ es)
        × (b.pending ≡ some tx)
  unfolding read_answer status_error
  read_answer-unresolved none tx es h = ground arith
  read_answer-unresolved (some r) tx es h = elim (Option-cases (parse_error r.body)) [
    | inl e ↦ let absurd : ⊥ = ground arith in elim absurd [ ]
    | inr e ↦ (r, e.0, (refl, ground arith, e.1), ground arith, ground arith)
  ]

  -- Whatever the client gives, a write has landed exactly when the status is 200 and the text reads
  -- as the result; it is too large exactly when the status is 413 and the text reads as an error;
  -- and it is unresolved, with a transaction, exactly when the status is 504 and the error names
  -- that transaction as pending.
  pub read_answer_lem :
      (a : Option Response) (x : R) (tx : String) (es : List ErrorLink)
      → ((read_answer parse parse_error a ≡ ok x)
          ↔ ((r : Response) × (a ≡ some r) × (r.status ≡ 200) × (parse r.body ≡ some x)))
        × ((read_answer parse parse_error a ≡ err (too_large es))
            ↔ ((r : Response) × (b : ErrorBody) × IsError a 413 r b × (b.error ≡ es)))
        × ((read_answer parse parse_error a ≡ err (unresolved tx es)) ↔ (
            (r : Response) × (b : ErrorBody) × IsError a 504 r b
            × (b.error ≡ es)
            × (b.pending ≡ some tx)))
  unfolding read_answer status_error
  read_answer_lem a x tx es = (
    (read_answer-ok a x, λ (r, p, q, w). rw (p, read_answer) (ground arith)),
    (
      read_answer-too_large a es,
      λ w.
          let q = (w.2).1 in
          let t = (w.2).2 in let u = w.3 in rw ((w.2).0, read_answer) (ground arith),
    ),
    (
      read_answer-unresolved a tx es,
      λ w.
          let q = (w.2).1 in
          let t = (w.2).2 in let u = w.3 in let v = w.4 in rw ((w.2).0, read_answer) (ground arith),
    ),
  )
