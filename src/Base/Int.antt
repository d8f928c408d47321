-- ===== src/Base/Int.antt =====
-- Go's `int`, 64 bits with a sign, as an integer with its range written out.
use discoblock.Base.Tests.{ltb, leb, if◌then◌else◌}
use Prim.Native.Nat.{ℕ, suc, ◌+◌, ◌-◌, ◌^◌, ◌≤◌}
use mathlib.Core.Bool.{Bool}

-- `negsuc n` is -(n + 1).
pub data ℤ : Type 0 where
  pos : ℕ → ℤ
  negsuc : ℕ → ℤ

abbrev pub max_int64 : ℕ
max_int64 = 2 ^ 63 - 1

-- `i + 1` on an int: the largest value wraps to the smallest.
unfoldable pub next_int : ℤ → ℤ
next_int (pos n) = if ltb n max_int64 then pos (n + 1) else negsuc max_int64
next_int (negsuc n) = if ltb 0 n then negsuc (n - 1) else pos 0

abbrev pub pos_part : ℤ → ℕ
pos_part (pos n) = n
pos_part (negsuc n) = 0

abbrev pub neg_part : ℤ → ℕ
neg_part (pos n) = 0
neg_part (negsuc n) = suc n

infix 50 ◌≤ℤ◌
abbrev pub ◌≤ℤ◌ : ℤ → ℤ → Type 0
a ≤ℤ b = pos_part a + neg_part b ≤ pos_part b + neg_part a

abbrev pub leb_ℤ : ℤ → ℤ → Bool
leb_ℤ a b = leb (pos_part a + neg_part b) (pos_part b + neg_part a)

abbrev pub IsInt : ℤ → Type 0
IsInt (pos n) = n ≤ max_int64
IsInt (negsuc n) = n ≤ max_int64
