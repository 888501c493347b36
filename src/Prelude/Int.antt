-- ===== src/Prelude/Int.antt =====
-- Signed integers over the native numbers, and their casts to and from fixed widths.
use Prim.Native.Nat.{ℕ, suc, ◌+◌, ◌-◌, ◌%◌, ◌^◌, ◌≤◌, ◌<◌}
use mathlib.Core.Path.{◌≡◌}
use mathlib.Core.Bool.{Bool, false}
use native.Mathlib.Omega.{arith}
use esp32_deskflow.Prelude.Tests.{ltb, leb, ◌==◌, if◌then◌else◌}

-- `negsuc n` is -(n + 1).
pub data ℤ : Type 0 where
  pos : ℕ → ℤ
  negsuc : ℕ → ℤ

abbrev pub pos_part : ℤ → ℕ
pos_part (pos n) = n
pos_part (negsuc n) = 0

abbrev pub neg_part : ℤ → ℕ
neg_part (pos n) = 0
neg_part (negsuc n) = suc n

-- `a - b` as an integer.
abbrev pub sub_ℕ : ℕ → ℕ → ℤ
sub_ℕ a b = if leb b a then pos (a - b) else negsuc (b - a - 1)

infixl 65 ◌+ℤ◌
abbrev pub ◌+ℤ◌ : ℤ → ℤ → ℤ
a +ℤ b = sub_ℕ (pos_part a + pos_part b) (neg_part a + neg_part b)

infix 50 ◌≤ℤ◌
abbrev pub ◌≤ℤ◌ : ℤ → ℤ → Type 0
a ≤ℤ b = pos_part a + neg_part b ≤ pos_part b + neg_part a

abbrev pub ltb_ℤ : ℤ → ℤ → Bool
ltb_ℤ a b = ltb (pos_part a + neg_part b) (pos_part b + neg_part a)

abbrev pub eqb_ℤ : ℤ → ℤ → Bool
eqb_ℤ (pos a) (pos b) = a == b
eqb_ℤ (negsuc a) (negsuc b) = a == b
eqb_ℤ (pos a) (negsuc b) = false
eqb_ℤ (negsuc a) (pos b) = false

-- `(int16_t)v` of a 16-bit pattern, and `(uint16_t)v` of a signed number.
abbrev pub int16_of_u16 : ℕ → ℤ
int16_of_u16 v = if ltb v (2 ^ 15) then pos v else negsuc (2 ^ 16 - v - 1)

abbrev pub u16_of_int : ℤ → ℕ
u16_of_int (pos n) = n % 2 ^ 16
u16_of_int (negsuc n) = 2 ^ 16 - n % 2 ^ 16 - 1

-- `(int8_t)v` of an 8-bit pattern, and `(uint8_t)v` of a signed number.
abbrev pub int8_of_u8 : ℕ → ℤ
int8_of_u8 v = if ltb v (2 ^ 7) then pos v else negsuc (2 ^ 8 - v - 1)

abbrev pub u8_of_int : ℤ → ℕ
u8_of_int (pos n) = n % 2 ^ 8
u8_of_int (negsuc n) = 2 ^ 8 - n % 2 ^ 8 - 1

-- The values of the C types `int8_t`, `int16_t`.
abbrev pub IsInt8 : ℤ → Type 0
IsInt8 z = (negsuc 127 ≤ℤ z) × (z ≤ℤ pos 127)

abbrev pub IsInt16 : ℤ → Type 0
IsInt16 z = (negsuc 32767 ≤ℤ z) × (z ≤ℤ pos 32767)

pub int16_of_u16-u16_of_int : (z : ℤ) → IsInt16 z → int16_of_u16 (u16_of_int z) ≡ z
int16_of_u16-u16_of_int z h = ground arith

pub int8_of_u8-u8_of_int : (z : ℤ) → IsInt8 z → int8_of_u8 (u8_of_int z) ≡ z
int8_of_u8-u8_of_int z h = ground arith

pub u16_of_int-lt : (z : ℤ) → u16_of_int z < 2 ^ 16
u16_of_int-lt (pos n) = omega arith
u16_of_int-lt (negsuc n) = omega arith

pub u8_of_int-lt : (z : ℤ) → u8_of_int z < 2 ^ 8
u8_of_int-lt (pos n) = omega arith
u8_of_int-lt (negsuc n) = omega arith

pub IsInt16-int16_of_u16 : (v : ℕ) → v < 2 ^ 16 → IsInt16 (int16_of_u16 v)
IsInt16-int16_of_u16 v h = ground arith
