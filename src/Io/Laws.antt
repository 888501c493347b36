-- ===== src/Io/Laws.antt =====
-- What the bytes of barrier_io.c stand for, as sums.
use esp32_deskflow.Prelude.{ℕ, ◌+◌, ◌*◌, ◌/◌, ◌%◌, ◌^◌, ◌<◌, ◌≡◌, arith, bit_and, bit_or, u8}
use esp32_deskflow.Prelude.{◌<<<◌, ◌>>>◌, or_byte, or_shift, and_byte}

pub u16_sum : (a b : ℕ) → b < 2 ^ 8 → bit_or (a <<< 8) b ≡ a * 256 + b
u16_sum a b h = or_byte a b h

pub u32_sum :
    (a b c d : ℕ)
    → b < 2 ^ 8
    → c < 2 ^ 8
    → d < 2 ^ 8
    → bit_or (bit_or (bit_or (a <<< 24) (b <<< 16)) (c <<< 8)) d
      ≡ ((a * 256 + b) * 256 + c) * 256 + d
u32_sum a b c d hb hc hd = ground (
  arith,
  or_shift (a * 65536) (b * 256),
  or_shift (a * 256) b,
  or_byte a b,
  or_shift (a * 65536 + b * 256) c,
  or_byte (a * 256 + b) c,
  or_byte ((a * 256 + b) * 256 + c) d,
)

-- The high and low bytes that a 16-bit write stores.
pub high_byte : (v : ℕ) → v < 2 ^ 16 → u8 (bit_and (v >>> 8) 0xff) ≡ v / 256
high_byte v h = omega (arith, and_byte (v >>> 8))

pub low_byte : (v : ℕ) → u8 (bit_and v 0xff) ≡ v % 256
low_byte v = omega (arith, and_byte v)

-- A 16-bit number is had back from its two bytes.
pub u16_join : (v : ℕ) → bit_or ((v / 256) <<< 8) (v % 256) ≡ v
u16_join v = omega (arith, u16_sum (v / 256) (v % 256) (omega arith))

-- A 32-bit number is had back from its four bytes.
pub u32_join :
    (v : ℕ)
    → bit_or
        (bit_or (bit_or ((v / 2 ^ 24) <<< 24) ((v / 2 ^ 16 % 256) <<< 16)) ((v / 256 % 256) <<< 8))
        (v % 256)
      ≡ v
u32_join v = omega (
  arith,
  u32_sum (v / 2 ^ 24) (v / 2 ^ 16 % 256) (v / 256 % 256) (v % 256) (omega arith) (omega arith)
      (omega arith),
)

-- The two bytes that a 16-bit write stores, and the four of a 32-bit write.
pub stored16 :
    (v : ℕ) → v < 2 ^ 16 → (u8 (bit_and (v >>> 8) 0xff) ≡ v / 256) × (u8 (bit_and v 0xff) ≡ v % 256)
stored16 v h = (high_byte v h, low_byte v)

pub stored32 :
    (v : ℕ)
    → v < 2 ^ 32
    → (u8 (bit_and (v >>> 24) 0xff) ≡ v / 2 ^ 24)
      × (u8 (bit_and (v >>> 16) 0xff) ≡ v / 2 ^ 16 % 256)
      × (u8 (bit_and (v >>> 8) 0xff) ≡ v / 256 % 256)
      × (u8 (bit_and v 0xff) ≡ v % 256)
stored32 v h = (
  omega (arith, and_byte (v >>> 24)),
  omega (arith, and_byte (v >>> 16)),
  omega (arith, and_byte (v >>> 8)),
  omega (arith, and_byte v),
)
