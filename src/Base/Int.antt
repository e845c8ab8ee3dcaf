-- ===== src/Base/Int.antt =====
-- Signed integers over the native numbers, under the library's names, with the i64 operations
-- that the health streak uses.
use Prim.Native.Nat.{ℕ, suc, ◌+◌, ◌-◌, ◌^◌, ◌≤◌, min}
use mathlib.Core.Bool.{Bool}
use arkiv_community_lb.Base.Tests.{leb}

-- `negsuc n` is -(n + 1).
pub data ℤ : Type 0 where
  pos : ℕ → ℤ
  negsuc : ℕ → ℤ

abbrev pub pos_part : ℤ → ℕ
pos_part (pos n) = n
pos_part (negsuc _) = 0

abbrev pub neg_part : ℤ → ℕ
neg_part (pos _) = 0
neg_part (negsuc n) = suc n

-- The number -n.
abbrev pub neg : ℕ → ℤ
neg n = elim n [ Prim.Native.Nat.zero ↦ pos 0 | suc m ↦ negsuc m ]

abbrev pub leb_ℤ : ℤ → ℤ → Bool
leb_ℤ a b = leb (pos_part a + neg_part b) (pos_part b + neg_part a)

abbrev pub i64_max : ℕ
i64_max = 2 ^ 63 - 1

-- `streak.max(0).saturating_add(1)`
abbrev pub grow : ℤ → ℤ
grow s = pos (min (pos_part s + 1) i64_max)

-- `streak.min(0).saturating_sub(1)`; the least i64 is -(2^63 - 1) - 1.
abbrev pub shrink : ℤ → ℤ
shrink s = negsuc (min (neg_part s) i64_max)
