-- ===== src/Keycodes/Tests.antt =====
-- The theorems on the key tables at concrete inputs.
use esp32_deskflow.Prelude.{◌+◌, ◌*◌, ◌≡◌, refl}
use Prim.Native.Nat.{max}
use esp32_deskflow.Keycodes.{
  table_de, barrier_key_to_hid, mask_to_tusb_modifier, find_high_char, high_chars, add_modifier,
}
use esp32_deskflow.Keycodes.Modifiers.{bit, modifier_bits}

modifier_bits_example :
    mask_to_tusb_modifier 0x1021
    ≡ bit 0x1021 1
      + bit 0x1021 0 * 0x02
      + bit 0x1021 2 * 0x04
      + bit 0x1021 4 * 0x08
      + max (bit 0x1021 3) (bit 0x1021 5) * 0x40
modifier_bits_example = modifier_bits 0x1021

-- Shift and AltGr, with Caps Lock on.
shift_altgr : mask_to_tusb_modifier 0x1021 ≡ 0x42
unfolding mask_to_tusb_modifier add_modifier
shift_altgr = refl

euro : barrier_key_to_hid table_de 0x20ac ≡ 0x08
unfolding barrier_key_to_hid find_high_char high_chars
euro = refl
