-- ===== src/Prelude/Int.antt =====
-- Signed integers over the native numbers, and the two readings of a 32-bit word.
use Prim.Native.Nat.{ℕ, suc, ◌+◌, ◌-◌, ◌/◌, ◌%◌, ◌^◌, ◌≤◌}
use mathlib.Core.Path.{◌≡◌}
use mathlib.Core.Bool.{Bool, ◌&&◌, not}
use native.Mathlib.Omega.{arith}
use os_ii.Prelude.Tests.{ltb, leb, ◌==◌, if◌then◌else◌}

-- `negsuc n` is -(n + 1).
pub data ℤ : Type 0 where
  pos : ℕ → ℤ
  negsuc : ℕ → ℤ

abbrev pub pos_part : ℤ → ℕ
pos_part (pos n) = n
pos_part (negsuc n) = 0

abbrev pub neg_part : ℤ → ℕ
neg_part (pos n) = 0
neg_part (negsuc n) = suc n

-- a - b, as an integer.
abbrev pub sub_ℕ : ℕ → ℕ → ℤ
sub_ℕ a b = if leb b a then pos (a - b) else negsuc (b - a - 1)

infixl 65 ◌+ℤ◌ ◌-ℤ◌
infix 50 ◌≤ℤ◌
abbrev pub ◌+ℤ◌ : ℤ → ℤ → ℤ
a +ℤ b = sub_ℕ (pos_part a + pos_part b) (neg_part a + neg_part b)

abbrev pub ◌-ℤ◌ : ℤ → ℤ → ℤ
a -ℤ b = sub_ℕ (pos_part a + neg_part b) (neg_part a + pos_part b)

abbrev pub ◌≤ℤ◌ : ℤ → ℤ → Type 0
a ≤ℤ b = pos_part a + neg_part b ≤ pos_part b + neg_part a

abbrev pub leb_ℤ : ℤ → ℤ → Bool
leb_ℤ a b = leb (pos_part a + neg_part b) (pos_part b + neg_part a)

abbrev pub eq_ℤ : ℤ → ℤ → Bool
eq_ℤ a b = (pos_part a == pos_part b) && (neg_part a == neg_part b)

abbrev pub u32_mod : ℕ
u32_mod = 2 ^ 32

-- `(uint32_t)v`: the two's complement bit pattern.
abbrev pub to_u32 : ℤ → ℕ
to_u32 (pos n) = n % u32_mod
to_u32 (negsuc n) = u32_mod - 1 - n % u32_mod

-- `(int32_t)w`: the integer that a bit pattern stands for.
abbrev pub to_i32 : ℕ → ℤ
to_i32 w = if ltb w (2 ^ 31) then pos w else negsuc (u32_mod - w - 1)

-- `v >> 4` on an `int32_t`: the arithmetic shift.
abbrev pub shift_right_four : ℤ → ℤ
shift_right_four (pos n) = pos (n / 16)
shift_right_four (negsuc n) = negsuc (n / 16)

-- The low eight bits of an `int32_t`: `(uint8_t)v`.
abbrev pub to_u8 : ℤ → ℕ
to_u8 v = to_u32 v % 256

abbrev pub is_zero : ℤ → Bool
is_zero a = eq_ℤ a (pos 0)

abbrev pub is_negative : ℤ → Bool
is_negative a = not (leb_ℤ (pos 0) a)

pub eq_of_parts : (a b : ℤ) → pos_part a + neg_part b ≡ pos_part b + neg_part a → a ≡ b
eq_of_parts a b h = ground arith
