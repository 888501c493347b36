-- ===== src/Actuator/Decoded.antt =====
-- The mouse reports of main/tusb/tusb_actuator.c as the descriptor of main/tusb/tusb_device.c declares them.
use esp32_deskflow.Prelude.{
  ℕ, ◌+◌, ◌*◌, ◌/◌, ◌%◌, ◌^◌, ◌<◌, ◌≡◌, refl, arith, ℤ, pos, negsuc, IsInt8, int8_of_u8-u8_of_int,
  u8_of_int-lt, u8_of_int, and_byte, [], ◌∷◌, true, false,
}
use esp32_deskflow.Actuator.Report.{mouse_report}
use esp32_deskflow.Actuator.Descriptor.{Field, mouse_fields, host_values, number}

abbrev bit_field : Field
bit_field = record { size = 1; constant = false; minimum = pos 0; maximum = pos 1 }

abbrev position_field : Field
position_field = record { size = 16; constant = false; minimum = pos 0; maximum = pos 32767 }

-- The declared fields.
mouse_fields_lem :
    mouse_fields
    ≡ bit_field
      ∷ bit_field
      ∷ bit_field
      ∷ record { size = 5; constant = true; minimum = pos 0; maximum = pos 1 }
      ∷ position_field
      ∷ position_field
      ∷ record { size = 8; constant = false; minimum = negsuc 126; maximum = pos 127 }
      ∷ []
mouse_fields_lem = refl

-- The bits of a report.
abbrev bits : ℕ → ℕ → ℕ → ℕ → ℕ
bits buttons hx hy wheel = buttons + 2 ^ 8 * hx + 2 ^ 24 * hy + 2 ^ 40 * wheel

number-mouse_report :
    (buttons hx hy : ℕ) (wheel : ℤ)
    → hx < 2 ^ 16
    → hy < 2 ^ 16
    → number (mouse_report buttons hx hy wheel) ≡ bits buttons hx hy (u8_of_int wheel)
unfolding mouse_report
number-mouse_report buttons hx hy wheel x y = omega (arith, and_byte hx, and_byte hy)

-- By the report descriptor a USB host reads of each mouse report the three button bits, the position and
-- the wheel as they were given, when the position has at most 15 bits and the wheel is an int8_t.
pub host_values-mouse_report :
    (buttons hx hy : ℕ) (wheel : ℤ)
    → buttons < 2 ^ 8
    → hx < 2 ^ 15
    → hy < 2 ^ 15
    → IsInt8 wheel
    → host_values mouse_fields (number (mouse_report buttons hx hy wheel))
      ≡ pos (buttons % 2)
        ∷ pos (buttons / 2 % 2)
        ∷ pos (buttons / 4 % 2)
        ∷ pos hx
        ∷ pos hy
        ∷ wheel
        ∷ []
host_values-mouse_report buttons hx hy wheel b x y w =
    let n = number (mouse_report buttons hx hy wheel) in
    let v = u8_of_int wheel in
    let whole = number-mouse_report buttons hx hy wheel (omega arith) (omega arith) in
    let small : v < 2 ^ 8 = u8_of_int-lt wheel in
    let b0 : n % 2 ≡ buttons % 2 = omega (arith, whole) in
    let b1 : n / 2 % 2 ≡ buttons / 2 % 2 = omega (arith, whole) in
    let b2 : n / 2 / 2 % 2 ≡ buttons / 4 % 2 = omega (arith, whole) in
    let rest = n / 2 / 2 / 2 / 2 ^ 5 in
    let at_x : rest % 2 ^ 16 ≡ hx = omega (arith, whole) in
    let at_y : rest / 2 ^ 16 % 2 ^ 16 ≡ hy = omega (arith, whole) in
    let at_wheel : rest / 2 ^ 16 / 2 ^ 16 % 2 ^ 8 ≡ v = omega (arith, whole) in
    rw (b0, b1, b2, at_x, at_y, at_wheel, int8_of_u8-u8_of_int wheel w) refl
