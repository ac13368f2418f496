-- ===== src/Prelude/Steps.antt =====
-- Signed step counters. Python counts control steps from -1; `negsuc n` is -(n + 1).
use Prim.Native.Nat.{ℕ, zero, suc, ◌+◌, ◌-◌, ◌≤◌, ◌<◌}
use mathlib.Core.Bool.{Bool, false}
use action_stream.Prelude.Tests.{ltb, leb, if◌then◌else◌}

pub data ℤ : Type 0 where
  pos : ℕ → ℤ
  negsuc : ℕ → ℤ

abbrev pub pos_part : ℤ → ℕ
pos_part (pos n) = n
pos_part (negsuc n) = 0

abbrev pub neg_part : ℤ → ℕ
neg_part (pos n) = 0
neg_part (negsuc n) = suc n

infix 50 ◌≤ℤ◌ ◌<ℤ◌
abbrev pub ◌≤ℤ◌ : ℤ → ℤ → Type 0
a ≤ℤ b = pos_part a + neg_part b ≤ pos_part b + neg_part a

abbrev pub ◌<ℤ◌ : ℤ → ℤ → Type 0
a <ℤ b = pos_part a + neg_part b < pos_part b + neg_part a

abbrev pub leb_ℤ : ℤ → ℤ → Bool
leb_ℤ a b = leb (pos_part a + neg_part b) (pos_part b + neg_part a)

abbrev pub ltb_ℤ : ℤ → ℤ → Bool
ltb_ℤ a b = ltb (pos_part a + neg_part b) (pos_part b + neg_part a)

-- Python's `max(0, a - b)`
abbrev pub age : ℤ → ℤ → ℕ
age a b = (pos_part a + neg_part b) - (pos_part b + neg_part a)

-- `a + 1`
abbrev pub suc_ℤ : ℤ → ℤ
suc_ℤ (pos n) = pos (suc n)
suc_ℤ (negsuc zero) = pos 0
suc_ℤ (negsuc (suc n)) = negsuc n

-- a - b, as an integer
abbrev pub sub_ℕ : ℕ → ℕ → ℤ
sub_ℕ a b = if leb b a then pos (a - b) else negsuc (b - a - 1)

infixl 65 ◌+ℤ◌
abbrev pub ◌+ℤ◌ : ℤ → ℤ → ℤ
a +ℤ b = sub_ℕ (pos_part a + pos_part b) (neg_part a + neg_part b)

-- A Python float that the program only tests and compares: a whole number of clock ticks (the unit
-- is the caller's), or an infinity or a NaN.
pub data Float : Type 0 where
  finite : ℤ → Float
  not_finite : Float

-- `math.isfinite(x) and x > 0`
abbrev pub is_positive : Float → Bool
is_positive (finite x) = ltb_ℤ (pos 0) x
is_positive not_finite = false

-- `math.isfinite(x) and x >= 0`
abbrev pub is_non_negative : Float → Bool
is_non_negative (finite x) = leb_ℤ (pos 0) x
is_non_negative not_finite = false
