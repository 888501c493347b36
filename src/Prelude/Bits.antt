-- ===== src/Prelude/Bits.antt =====
-- `|` of fields that do not overlap and `&` with a mask or a flag, as arithmetic.
use Prim.Native.Nat.{ℕ, zero, suc, ◌+◌, ◌*◌, ◌/◌, ◌%◌, ◌^◌, ◌≤◌, ◌<◌, min, max}
use Prim.Native.Nat.{bit_and, bit_or, digits, bit_and-bitwise, bit_or-bitwise}
use mathlib.Core.Path.{◌≡◌, ◌∙◌, refl, sym, ap}
use native.Mathlib.Omega.{arith}

-- The operations are defined on binary digits with fuel; any fuel from `a` on gives what fuel `a`
-- gives. `k` bounds the recursion.
enough_fuel :
    (g : ℕ → ℕ) (f : ℕ → ℕ → ℕ) (k fuel a b : ℕ)
    → a ≤ k
    → a ≤ fuel
    → digits g f fuel a b ≡ digits g f a a b
enough_fuel g f k zero zero b _ _ = refl
enough_fuel g f k (suc fuel) zero b _ _ = refl
enough_fuel g f k zero (suc a) b _ low = absurd (omega arith)
enough_fuel g f zero (suc fuel) (suc a) b top _ = absurd (omega arith)
enough_fuel g f (suc k) (suc fuel) (suc a) b top low =
    let half = suc a / 2 in
    ap (λ (t : ℕ). t * 2 + f (suc a % 2) (b % 2))
      (enough_fuel g f k fuel half (b / 2) (omega arith) (omega arith)
        ∙ sym (enough_fuel g f k a half (b / 2) (omega arith) (omega arith)))

zero_or : (b : ℕ) → bit_or 0 b ≡ b
zero_or b = bit_or-bitwise 0 b

pub zero_and : (b : ℕ) → bit_and 0 b ≡ 0
zero_and b = bit_and-bitwise 0 b

-- One binary digit of each operation.
pub or_digit : (a b : ℕ) → bit_or a b ≡ bit_or (a / 2) (b / 2) * 2 + max (a % 2) (b % 2)
or_digit zero b = omega (arith, zero_or b, zero_or (b / 2))
or_digit (suc a) b = omega (
  arith,
  enough_fuel (λ y. y) max a a (suc a / 2) (b / 2) (omega arith) (omega arith),
  bit_or-bitwise (suc a / 2) (b / 2),
  bit_or-bitwise (suc a) b,
)

pub and_digit : (a b : ℕ) → bit_and a b ≡ bit_and (a / 2) (b / 2) * 2 + min (a % 2) (b % 2)
and_digit zero b = omega (arith, zero_and b, zero_and (b / 2))
and_digit (suc a) b = omega (
  arith,
  enough_fuel (λ y. 0) min a a (suc a / 2) (b / 2) (omega arith) (omega arith),
  bit_and-bitwise (suc a / 2) (b / 2),
  bit_and-bitwise (suc a) b,
)

or_zero_below : (n a : ℕ) → a ≤ n → bit_or a 0 ≡ a
or_zero_below zero a h = let e : a ≡ 0 = omega arith in rw e
or_zero_below (suc n) zero h = refl
or_zero_below (suc n) (suc a) h =
    omega (arith, or_digit (suc a) 0, or_zero_below n (suc a / 2) (omega arith))

pub or-zero : (a : ℕ) → bit_or a 0 ≡ a
or-zero a = or_zero_below a a (omega arith)

and_zero_below : (n a : ℕ) → a ≤ n → bit_and a 0 ≡ 0
and_zero_below zero a h = let e : a ≡ 0 = omega arith in rw e
and_zero_below (suc n) zero h = refl
and_zero_below (suc n) (suc a) h =
    omega (arith, and_digit (suc a) 0, and_zero_below n (suc a / 2) (omega arith))

pub and-zero : (a : ℕ) → bit_and a 0 ≡ 0
and-zero a = and_zero_below a a (omega arith)

or_double : (a b : ℕ) → bit_or (a * 2) b ≡ bit_or a (b / 2) * 2 + b % 2
or_double a b = ground (arith, or_digit (a * 2) b)

-- `(a << 8) | b` for a byte `b`.
pub or_byte : (a b : ℕ) → b < 2 ^ 8 → bit_or (a * 2 ^ 8) b ≡ a * 2 ^ 8 + b
or_byte a b h = ground (
  arith,
  or_double (a * 128) b,
  or_double (a * 64) (b / 2),
  or_double (a * 32) (b / 4),
  or_double (a * 16) (b / 8),
  or_double (a * 8) (b / 16),
  or_double (a * 4) (b / 32),
  or_double (a * 2) (b / 64),
  or_double a (b / 128),
  or-zero a,
)

pub and-one : (a : ℕ) → bit_and a 1 ≡ a % 2
and-one a = omega (arith, and_digit a 1, and-zero (a / 2))

-- `a & 2^k`, digit by digit.
pub and_double : (a b : ℕ) → bit_and a (b * 2) ≡ bit_and (a / 2) b * 2
and_double a b = ground (arith, and_digit a (b * 2))

and_mask_step : (a m : ℕ) → bit_and a (m * 2 + 1) ≡ bit_and (a / 2) m * 2 + a % 2
and_mask_step a m = ground (arith, and_digit a (m * 2 + 1))

-- `a & 0xFF`.
pub and_byte : (a : ℕ) → bit_and a 0xff ≡ a % 2 ^ 8
and_byte a = ground (
  arith,
  and_mask_step a 127,
  and_mask_step (a / 2) 63,
  and_mask_step (a / 4) 31,
  and_mask_step (a / 8) 15,
  and_mask_step (a / 16) 7,
  and_mask_step (a / 32) 3,
  and_mask_step (a / 64) 1,
  and-one (a / 128),
)

-- Shifting both operands by a byte.
pub or_shift : (a b : ℕ) → bit_or (a * 2 ^ 8) (b * 2 ^ 8) ≡ bit_or a b * 2 ^ 8
or_shift a b = ground (
  arith,
  or_double (a * 128) (b * 256),
  or_double (a * 64) (b * 128),
  or_double (a * 32) (b * 64),
  or_double (a * 16) (b * 32),
  or_double (a * 8) (b * 16),
  or_double (a * 4) (b * 8),
  or_double (a * 2) (b * 4),
  or_double a (b * 2),
)
