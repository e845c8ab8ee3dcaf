-- ===== src/Chain/Quoting.antt =====
-- chain/reader.rs `literal`: a quote in a string is doubled.
use Prim.Native.String.{String, [], ◌∷◌, ◌++◌}
use Prim.Native.String.append
use Prim.Native.Char.{Char, code}
use arkiv_community_lb.Base.{
  ◌≡◌, refl, ap, ◌∙◌, inl, inr, Bool, true, false, Option, none, some, ◌==◌, if◌then◌else◌,
  Bool-cases, arith,
}

abbrev pub is_quote : Char → Bool
is_quote c = code c == 39

-- `s.replace('\'', "''")`
unfoldable pub double_quotes : String → String
double_quotes [] = []
double_quotes (c ∷ s) = if is_quote c then c ∷ c ∷ double_quotes s else c ∷ double_quotes s

abbrev prepend : Char → Option (String × String) → Option (String × String)
prepend c none = none
prepend c (some (s, rest)) = some (c ∷ s, rest)

-- How a node reads a string after its opening quote: two quotes are one of the string, a single one
-- ends it. Gives the string and what stands after its closing quote.
abbrev pub read_string : String → Option (String × String)
read_string [] = none
read_string (c ∷ []) = if is_quote c then some ([], []) else none
read_string (c ∷ d ∷ s) =
    let doubled = prepend c (read_string s) in
    let plain = prepend c (read_string (d ∷ s)) in
    if is_quote c then if is_quote d then doubled else some ([], d ∷ s) else plain

-- A text that does not start with a quote.
abbrev pub ends_string : String → Bool
ends_string [] = true
ends_string (c ∷ _) = if is_quote c then false else true

read_string-plain :
    (c : Char) (s : String) (p : String × String)
    → is_quote c ≡ false
    → read_string s ≡ some p
    → read_string (c ∷ s) ≡ some (c ∷ p.0, p.1)
read_string-plain c [] p e h = cc
read_string-plain c (d ∷ s) p e h = rw (e, h) refl

ends : (d : Char) (r : String) → ends_string (d ∷ r) ≡ true → is_quote d ≡ false
ends d r h = ground arith

-- Whatever a string holds, its literal reads back as that string, and what stands after the closing
-- quote is left, if that does not start with a quote.
pub read_string-double_quotes :
    (s : String) (q : Char) (rest : String)
    → is_quote q ≡ true
    → ends_string rest ≡ true
    → read_string (double_quotes s ++ (q ∷ rest)) ≡ some (s, rest)
unfolding double_quotes
read_string-double_quotes [] q [] e h = rw (append.nil (q ∷ []), e) refl
read_string-double_quotes [] q (d ∷ rest) e h =
    rw (append.nil (q ∷ d ∷ rest), e, ends d rest h) refl
read_string-double_quotes (c ∷ s) q rest e h =
    let back = read_string-double_quotes s q rest e h in
    let after = double_quotes s ++ (q ∷ rest) in
    elim (Bool-cases (is_quote c)) [
      | inl quote ↦
          rw (quote, double_quotes)
            (ap read_string (
                append.cons c (c ∷ double_quotes s) (q ∷ rest)
                ∙ ap (λ t. c ∷ t) (append.cons c (double_quotes s) (q ∷ rest)))
              ∙ rw (quote, back) refl)
      | inr plain ↦
          rw (plain, double_quotes)
            (ap read_string (append.cons c (double_quotes s) (q ∷ rest))
              ∙ read_string-plain c after (s, rest) plain back)
    ]
