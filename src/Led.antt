-- ===== src/Led.antt =====
-- main/led/led_rgb.c: the colours of the status light.
pub mod Colours
use esp32_deskflow.Prelude.{ℕ, ◌-◌, Bool, true, false, ◌&&◌, if◌then◌else◌}

-- `LED_RGB_MAX_DUTY`
abbrev pub led_rgb_max_duty : ℕ
led_rgb_max_duty = 255

-- The duties of the three channels: red, green and blue of a light with a common anode, for which the full
-- duty is dark.
pub record Duties : Type 0 where
  pub channel_0 : ℕ
  pub channel_1 : ℕ
  pub channel_2 : ℕ

unfoldable pub led_rgb_set_raw : ℕ → ℕ → ℕ → Duties
led_rgb_set_raw r g b = record {
  channel_0 = led_rgb_max_duty - r;
  channel_1 = led_rgb_max_duty - g;
  channel_2 = led_rgb_max_duty - b;
}

unfoldable pub led_rgb_state : Bool → Bool → Duties
unfolding led_rgb_set_raw
led_rgb_state eth_connected usb_connected =
    if eth_connected && usb_connected
    then led_rgb_set_raw 0 led_rgb_max_duty 0
    else if eth_connected
    then led_rgb_set_raw 0 0 led_rgb_max_duty
    else if usb_connected
    then led_rgb_set_raw led_rgb_max_duty led_rgb_max_duty 0
    else led_rgb_set_raw led_rgb_max_duty 0 0
