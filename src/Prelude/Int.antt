-- ===== src/Prelude/Int.antt =====
-- Go's `int`, `int64` and `time.Duration`: integers, with the wrap-around of a 64-bit result written
-- out by `wrap64`.
use workqueue_modules.Prelude.Tests.{ltb, leb, ◌==◌, if◌then◌else◌}
use Prim.Native.Nat.{ℕ, suc, ◌+◌, ◌-◌, ◌*◌, ◌%◌, ◌^◌, ◌≤◌, ◌<◌}
use mathlib.Core.Path.{◌≡◌}
use mathlib.Core.Logic.{◌⊎◌}
use mathlib.Core.Bool.{Bool, true, ◌&&◌}
use native.Mathlib.Omega.{arith}

-- `negsuc n` is -(n + 1).
pub data ℤ : Type 0 where
  pos : ℕ → ℤ
  negsuc : ℕ → ℤ

abbrev pub pos_part : ℤ → ℕ
pos_part (pos n) = n
pos_part (negsuc n) = 0

abbrev pub neg_part : ℤ → ℕ
neg_part (pos n) = 0
neg_part (negsuc n) = suc n

-- a - b, as an integer.
abbrev pub sub_ℕ : ℕ → ℕ → ℤ
sub_ℕ a b = if leb b a then pos (a - b) else negsuc (b - a - 1)

infixl 65 ◌+ℤ◌
infixl 65 ◌-ℤ◌
infixl 70 ◌*ℤ◌
infix 50 ◌≤ℤ◌ ◌<ℤ◌
abbrev pub ◌+ℤ◌ : ℤ → ℤ → ℤ
a +ℤ b = sub_ℕ (pos_part a + pos_part b) (neg_part a + neg_part b)

abbrev pub ◌-ℤ◌ : ℤ → ℤ → ℤ
◌-ℤ◌ a b = sub_ℕ (pos_part a + neg_part b) (pos_part b + neg_part a)

abbrev pub ◌*ℤ◌ : ℤ → ℤ → ℤ
a *ℤ b =
    sub_ℕ (pos_part a * pos_part b + neg_part a * neg_part b)
      (pos_part a * neg_part b + neg_part a * pos_part b)

abbrev pub ◌≤ℤ◌ : ℤ → ℤ → Type 0
a ≤ℤ b = pos_part a + neg_part b ≤ pos_part b + neg_part a

abbrev pub ◌<ℤ◌ : ℤ → ℤ → Type 0
a <ℤ b = pos_part a + neg_part b < pos_part b + neg_part a

abbrev pub ltb_ℤ : ℤ → ℤ → Bool
ltb_ℤ a b = ltb (pos_part a + neg_part b) (pos_part b + neg_part a)

abbrev pub leb_ℤ : ℤ → ℤ → Bool
leb_ℤ a b = leb (pos_part a + neg_part b) (pos_part b + neg_part a)

-- The least number past an `int64`.
abbrev pub int64_end : ℕ
int64_end = 2 ^ 63

-- The value fits a 64-bit signed integer.
abbrev pub IsInt64 : ℤ → Type 0
IsInt64 z = (pos_part z < int64_end) × (neg_part z ≤ int64_end)

-- The signed integer with the 64-bit pattern `n`.
signed64 : ℕ → ℤ
signed64 n = if ltb n int64_end then pos n else negsuc (2 ^ 64 - 1 - n)

-- What is left of an exact result in 64 bits, in two's complement.
unfoldable pub wrap64 : ℤ → ℤ
unfolding signed64
wrap64 (pos n) = signed64 (n % 2 ^ 64)
wrap64 (negsuc n) = signed64 (2 ^ 64 - 1 - n % 2 ^ 64)

-- A result that fits is kept.
pub wrap64_in_range : (z : ℤ) → IsInt64 z → wrap64 z ≡ z
unfolding wrap64
wrap64_in_range (pos n) h = ground arith
wrap64_in_range (negsuc n) h = ground arith

-- A doubling that fits is exact.
pub wrap64_double_fits : (d : ℕ) → d + d < int64_end → wrap64 (pos d *ℤ pos 2) ≡ pos (d + d)
unfolding wrap64
wrap64_double_fits d h = ground arith

-- A doubling that does not fit wraps to a negative number: the sign shows every overflow.
pub wrap64_double_wraps :
    (d : ℕ)
    → d < int64_end
    → int64_end ≤ d + d
    → wrap64 (pos d *ℤ pos 2) ≡ negsuc (2 ^ 64 - 1 - (d + d))
unfolding wrap64
wrap64_double_wraps d h k = ground arith

pub ≤ℤ-cases : (a b : ℤ) → (a ≤ℤ b) ⊎ (b <ℤ a)
≤ℤ-cases a b = omega arith

-- A sum of two numbers that does not fit wraps to a negative number.
pub wrap64_sum_wraps :
    (a b : ℕ)
    → a < int64_end
    → b < int64_end
    → int64_end ≤ a + b
    → wrap64 (pos a +ℤ pos b) ≡ negsuc (2 ^ 64 - 1 - (a + b))
unfolding wrap64
wrap64_sum_wraps a b h k over = ground arith

pub wrap64_sum_fits : (a b : ℕ) → a + b < int64_end → wrap64 (pos a +ℤ pos b) ≡ pos (a + b)
unfolding wrap64
wrap64_sum_fits a b h = ground arith

pub wrap64_difference_fits :
    (a b : ℕ) → b ≤ a → a < int64_end → wrap64 (pos a -ℤ pos b) ≡ pos (a - b)
unfolding wrap64
wrap64_difference_fits a b h k = ground arith

-- The capacities from which on `make` panics for a slice of pointers: its bytes would not fit an `int`.
abbrev pub slots_end : ℕ
slots_end = 2 ^ 60

-- The test `a == b`.
abbrev pub eqb_ℤ : ℤ → ℤ → Bool
eqb_ℤ a b = (pos_part a == pos_part b) && (neg_part a == neg_part b)

pub eqb_ℤ→eq : (a b : ℤ) → eqb_ℤ a b ≡ true → a ≡ b
eqb_ℤ→eq a b h = ground arith
