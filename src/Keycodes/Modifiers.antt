-- ===== src/Keycodes/Modifiers.antt =====
-- The modifier byte that a Deskflow mask stands for.
use esp32_deskflow.Prelude.{
  ◌∙◌, holds_below, holds_below_at, ==_iff, true, ◌^◌, ℕ, ◌+◌, ◌*◌, ◌/◌, ◌%◌, ◌≡◌, refl, arith,
  bit_and, ◌==◌, and-one, and_double,
}
use Prim.Native.Nat.{max}
use esp32_deskflow.Keycodes.{add_modifier, mask_to_tusb_modifier}

-- Bit k of a number.
abbrev pub bit : ℕ → ℕ → ℕ
bit m k = m / 2 ^ k % 2

flag_0 : (m : ℕ) → bit_and m 0x01 ≡ bit m 0 * 0x01
flag_0 m = omega (arith, and-one m)

flag_1 : (m : ℕ) → bit_and m 0x02 ≡ bit m 1 * 0x02
flag_1 m = omega (arith, and_double m 1, and-one (m / 2))

flag_2 : (m : ℕ) → bit_and m 0x04 ≡ bit m 2 * 0x04
flag_2 m = ground (arith, and_double m 2, flag_1 (m / 2))

flag_3 : (m : ℕ) → bit_and m 0x08 ≡ bit m 3 * 0x08
flag_3 m = ground (arith, and_double m 4, flag_2 (m / 2))

flag_4 : (m : ℕ) → bit_and m 0x10 ≡ bit m 4 * 0x10
flag_4 m = ground (arith, and_double m 8, flag_3 (m / 2))

flag_5 : (m : ℕ) → bit_and m 0x20 ≡ bit m 5 * 0x20
flag_5 m = ground (arith, and_double m 16, flag_4 (m / 2))

-- The byte that the bits of a mask call for.
abbrev pub modifier_of : ℕ → ℕ
modifier_of m =
    bit m 1 + bit m 0 * 0x02 + bit m 2 * 0x04 + bit m 4 * 0x08 + max (bit m 3) (bit m 5) * 0x40

-- The six flags stand in the low six bits of the mask.
same_flag_0 : (m : ℕ) → bit_and m 0x1 ≡ bit_and (m % 64) 0x1
same_flag_0 m = omega (arith, flag_0 m, flag_0 (m % 64))

same_flag_1 : (m : ℕ) → bit_and m 0x2 ≡ bit_and (m % 64) 0x2
same_flag_1 m = omega (arith, flag_1 m, flag_1 (m % 64))

same_flag_2 : (m : ℕ) → bit_and m 0x4 ≡ bit_and (m % 64) 0x4
same_flag_2 m = omega (arith, flag_2 m, flag_2 (m % 64))

same_flag_3 : (m : ℕ) → bit_and m 0x8 ≡ bit_and (m % 64) 0x8
same_flag_3 m = omega (arith, flag_3 m, flag_3 (m % 64))

same_flag_4 : (m : ℕ) → bit_and m 0x10 ≡ bit_and (m % 64) 0x10
same_flag_4 m = omega (arith, flag_4 m, flag_4 (m % 64))

same_flag_5 : (m : ℕ) → bit_and m 0x20 ≡ bit_and (m % 64) 0x20
same_flag_5 m = omega (arith, flag_5 m, flag_5 (m % 64))

low_bits_only : (m : ℕ) → mask_to_tusb_modifier m ≡ mask_to_tusb_modifier (m % 64)
unfolding mask_to_tusb_modifier add_modifier
low_bits_only m =
    rw (same_flag_0 m, same_flag_1 m, same_flag_2 m, same_flag_3 m, same_flag_4 m, same_flag_5 m)

low_bit_0 : (m : ℕ) → bit (m % 64) 0 ≡ bit m 0
low_bit_0 m = omega arith

low_bit_1 : (m : ℕ) → bit (m % 64) 1 ≡ bit m 1
low_bit_1 m = omega arith

low_bit_2 : (m : ℕ) → bit (m % 64) 2 ≡ bit m 2
low_bit_2 m = omega arith

low_bit_3 : (m : ℕ) → bit (m % 64) 3 ≡ bit m 3
low_bit_3 m = omega arith

low_bit_4 : (m : ℕ) → bit (m % 64) 4 ≡ bit m 4
low_bit_4 m = omega arith

low_bit_5 : (m : ℕ) → bit (m % 64) 5 ≡ bit m 5
low_bit_5 m = omega arith

modifier_of_low : (m : ℕ) → modifier_of (m % 64) ≡ modifier_of m
modifier_of_low m =
    cc (low_bit_0 m, low_bit_1 m, low_bit_2 m, low_bit_3 m, low_bit_4 m, low_bit_5 m)

modifier_table : holds_below (λ m. mask_to_tusb_modifier m == modifier_of m) 64 ≡ true
unfolding holds_below mask_to_tusb_modifier add_modifier
modifier_table = refl

-- The modifier byte has, bit by bit: left Control for Control (bit 1 of the mask), left Shift for
-- Shift (bit 0), left Alt for Alt (bit 2), left GUI for Super (bit 4), and right Alt for Meta or
-- AltGr (bits 3 and 5). No other bit of the mask counts.
pub modifier_bits :
    (m : ℕ)
    → mask_to_tusb_modifier m
      ≡ bit m 1 + bit m 0 * 0x02 + bit m 2 * 0x04 + bit m 4 * 0x08 + max (bit m 3) (bit m 5) * 0x40
modifier_bits m =
    low_bits_only m
    ∙ (==_iff _ _).0 (holds_below_at _ 64 modifier_table (m % 64) (omega arith))
    ∙ modifier_of_low m
