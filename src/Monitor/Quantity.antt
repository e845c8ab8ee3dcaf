-- ===== src/Monitor/Quantity.antt =====
-- monitor.rs: `hex_quantity`, with u64::from_str_radix(.., 16) as the standard library has it.
use arkiv_community_lb.Base.{
  ℕ, ◌+◌, ◌-◌, ◌*◌, ◌≤◌, ◌<◌, ◌≡◌, ◌≢◌, inl, inr, false, ◌&&◌, Option, none, some, List, [], ◌∷◌,
  String, arith, Bool-cases, Option-cases, some-eq, leb, ltb, ◌==◌, if◌then◌else◌, u64_mod,
}
use arkiv_community_lb.Jsonrpc.{Json, text}
use arkiv_community_lb.Denylist.{codes}

-- `char::to_digit(16)`
unfoldable pub hex_digit : ℕ → Option ℕ
hex_digit c =
    if leb b'0' c && leb c b'9'
    then some (c - b'0')
    else if leb b'a' c && leb c b'f'
    then some (c - b'a' + 10)
    else if leb b'A' c && leb c b'F'
    then some (c - b'A' + 10)
    else none

-- The digits from the left, each step checked for overflow.
unfoldable pub parse_digits : ℕ → List ℕ → Option ℕ
unfolding hex_digit
parse_digits acc [] = some acc
parse_digits acc (c ∷ cs) = elim (hex_digit c) [
  | none ↦ none
  | some d ↦ if ltb (acc * 16 + d) u64_mod then parse_digits (acc * 16 + d) cs else none
]

-- A sign alone is refused, a plus before digits is skipped; a minus is no digit.
unfoldable pub from_str_radix_16 : List ℕ → Option ℕ
unfolding parse_digits
from_str_radix_16 [] = none
from_str_radix_16 (c ∷ []) = parse_digits 0 (c ∷ [])
from_str_radix_16 (c ∷ d ∷ cs) =
    if c == b'+' then parse_digits 0 (d ∷ cs) else parse_digits 0 (c ∷ d ∷ cs)

abbrev pub strip_0x : List ℕ → Option (List ℕ)
strip_0x (a ∷ b ∷ rest) = if a == b'0' && b == b'x' then some rest else none
strip_0x _ = none

unfoldable pub hex_quantity : Json → Option ℕ
unfolding from_str_radix_16
hex_quantity (text s) = elim (strip_0x (codes s)) [
  | none ↦ none
  | some digits ↦ from_str_radix_16 digits
]
hex_quantity _ = none

-- The number that hex digits write, without bounds.
abbrev pub value_from : ℕ → List ℕ → Option ℕ
value_from acc [] = some acc
value_from acc (c ∷ cs) = elim (hex_digit c) [ none ↦ none | some d ↦ value_from (acc * 16 + d) cs ]

value_from-le : (cs : List ℕ) (acc n : ℕ) → value_from acc cs ≡ some n → acc ≤ n
value_from-le [] acc n h = omega (arith, some-eq h)
value_from-le (c ∷ cs) acc n h = elim (Option-cases (hex_digit c)) [
  | inl e ↦ cc (rw (e, value_from) at h)
  | inr (d, e) ↦ omega (arith, value_from-le cs (acc * 16 + d) n (rw (e, value_from) at h))
]

abbrev pub within_u64 : Option ℕ → Option ℕ
within_u64 none = none
within_u64 (some n) = if ltb n u64_mod then some n else none

too_large : (cs : List ℕ) (acc : ℕ) → u64_mod ≤ acc → none ≡ within_u64 (value_from acc cs)
too_large cs acc h = elim (Option-cases (value_from acc cs)) [
  | inl e ↦ rw e
  | inr (n, e) ↦
      let over : ltb n u64_mod ≡ false = ground (arith, value_from-le cs acc n e) in
      rw (e, within_u64, over)
]

-- Digit by digit with an overflow check is the number that the digits write, if that is a u64.
pub parse_digits-value :
    (cs : List ℕ) (acc : ℕ) → acc < u64_mod → parse_digits acc cs ≡ within_u64 (value_from acc cs)
unfolding parse_digits
parse_digits-value [] acc h = ground arith
parse_digits-value (c ∷ cs) acc h = elim (Option-cases (hex_digit c)) [
  | inl e ↦ rw (e, parse_digits, value_from)
  | inr (d, e) ↦ elim (Bool-cases (ltb (acc * 16 + d) u64_mod)) [
    | inl fits ↦
        rw (e, parse_digits, value_from, fits) (parse_digits-value cs (acc * 16 + d) (ground arith))
    | inr over ↦ rw (e, parse_digits, value_from, over) (too_large cs (acc * 16 + d) (ground arith))
  ]
]

from_str_radix_16-value :
    (c : ℕ) (cs : List ℕ)
    → c ≢ b'+'
    → from_str_radix_16 (c ∷ cs) ≡ within_u64 (value_from 0 (c ∷ cs))
unfolding from_str_radix_16
from_str_radix_16-value c [] h = parse_digits-value (c ∷ []) 0 (omega arith)
from_str_radix_16-value c (d ∷ cs) h =
    let plain : (c == b'+') ≡ false = ground arith in
    rw plain (parse_digits-value (c ∷ d ∷ cs) 0 (omega arith))

-- A text of 0x and characters of which the first is no plus reads as the number that they write in
-- hex, if they are all hex digits and the number is a u64, and as nothing otherwise.
pub hex_quantity-value :
    (s : String) (c : ℕ) (cs : List ℕ)
    → codes s ≡ b'0' ∷ b'x' ∷ c ∷ cs
    → c ≢ b'+'
    → hex_quantity (text s) ≡ within_u64 (value_from 0 (c ∷ cs))
unfolding hex_quantity
hex_quantity-value s c cs e h =
    let stripped : strip_0x (codes s) ≡ some (c ∷ cs) = rw e in
    rw (stripped, hex_quantity) (from_str_radix_16-value c cs h)

-- A plus between 0x and at least one more character is skipped: what follows reads as if it stood
-- directly behind 0x.
pub hex_quantity-plus :
    (s : String) (d : ℕ) (cs : List ℕ)
    → codes s ≡ b'0' ∷ b'x' ∷ b'+' ∷ d ∷ cs
    → hex_quantity (text s) ≡ within_u64 (value_from 0 (d ∷ cs))
unfolding hex_quantity from_str_radix_16
hex_quantity-plus s d cs e =
    let stripped : strip_0x (codes s) ≡ some (b'+' ∷ d ∷ cs) = rw e in
    rw (stripped, hex_quantity) (parse_digits-value (d ∷ cs) 0 (omega arith))
