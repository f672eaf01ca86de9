-- ===== src/Common/Int.antt =====
-- Signed integers over the native numbers, under the library's names: the differences that the
-- coordinators take before they test their sign.
use rabbitmqtobucketqueue.Common.{ℕ, suc, ◌-◌, ltb, leb, if◌then◌else◌, Bool}

-- `negsuc n` is -(n + 1).
pub data ℤ : Type 0 where
  pos : ℕ → ℤ
  negsuc : ℕ → ℤ

abbrev pub pos_part : ℤ → ℕ
pos_part (pos n) = n
pos_part (negsuc n) = 0

abbrev pub neg_part : ℤ → ℕ
neg_part (pos n) = 0
neg_part (negsuc n) = suc n

-- a - b, as an integer.
abbrev pub sub_ℕ : ℕ → ℕ → ℤ
sub_ℕ a b = if leb b a then pos (a - b) else negsuc (b - a - 1)

-- b < 0 and b <= 0.
abbrev pub is_negative : ℤ → Bool
is_negative b = ltb (pos_part b) (neg_part b)

abbrev pub is_at_most_zero : ℤ → Bool
is_at_most_zero b = leb (pos_part b) (neg_part b)
