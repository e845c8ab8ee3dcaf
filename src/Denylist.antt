-- ===== src/Denylist.antt =====
-- crates/lb/src/denylist.rs: a request body, as bytes, against the method names that the
-- endpoint refuses.
pub mod Search
use Prim.Native.Char.{code}
use arkiv_community_lb.Base.{
  ℕ, zero, suc, ◌+◌, ◌&&◌, String, Bool, true, false, Option, List, [], ◌∷◌, length, take, any,
  find, ltb, leb, ◌==◌, if◌then◌else◌,
}

-- The bytes of a text in ASCII.
abbrev pub codes : String → List ℕ
codes String.[] = []
codes (String.◌∷◌ c s) = code c ∷ codes s

abbrev pub denied_names : List String
denied_names =
    "admin_" ∷ "engine_" ∷ "miner_" ∷ "debug_set" ∷ "debug_verbosity" ∷ "debug_vmodule"
    ∷ "debug_freezeclient" ∷ "eth_sendtransaction" ∷ "eth_sign" ∷ "eth_accounts" ∷ "personal_"
    ∷ "eth_newfilter" ∷ "eth_newblockfilter" ∷ "eth_newpendingtransactionfilter"
    ∷ "eth_getfilterchanges" ∷ "eth_getfilterlogs" ∷ "eth_uninstallfilter" ∷ "eth_subscribe"
    ∷ "eth_unsubscribe" ∷ []

-- `to_ascii_lowercase` of a byte
unfoldable pub lower : ℕ → ℕ
lower b = if leb b'A' b && leb b b'Z' then b + 32 else b

unfoldable pub eq_ignore_ascii_case : List ℕ → List ℕ → Bool
unfolding lower
eq_ignore_ascii_case [] [] = true
eq_ignore_ascii_case [] (_ ∷ _) = false
eq_ignore_ascii_case (_ ∷ _) [] = false
eq_ignore_ascii_case (a ∷ xs) (b ∷ ys) = lower a == lower b && eq_ignore_ascii_case xs ys

-- `slice::windows`
unfoldable pub windows : ℕ → List ℕ → List (List ℕ)
windows n [] = []
windows n (x ∷ xs) = if leb n (suc (length xs)) then take n (x ∷ xs) ∷ windows n xs else []

unfoldable pub contains_ignore_case : List ℕ → List ℕ → Bool
unfolding windows eq_ignore_ascii_case
contains_ignore_case haystack needle =
    if ltb (length haystack) (length needle)
    then false
    else any (λ w. eq_ignore_ascii_case w needle) (windows (length needle) haystack)

unfoldable pub denied : List ℕ → Option String
unfolding contains_ignore_case
denied body = find (λ name. contains_ignore_case body (codes name)) denied_names
