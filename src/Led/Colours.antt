-- ===== src/Led/Colours.antt =====
-- What the status light of main/led/led_rgb.c tells.
use esp32_deskflow.Prelude.{◌==◌, ◌≡◌, refl, Bool, true, false}
use esp32_deskflow.Led.{Duties, led_rgb_set_raw, led_rgb_state}

-- The network is up where red is dark.
abbrev pub shows_network : Duties → Bool
shows_network d = d.channel_0 == 255

-- The USB side is up where green shines.
abbrev pub shows_usb : Duties → Bool
shows_usb d = d.channel_1 == 0

-- The colour tells both states apart: red shines exactly without a network, and green exactly with a USB
-- host or a stick.
pub led_rgb_state_lem :
    (eth_connected usb_connected : Bool)
    → (let d = led_rgb_state eth_connected usb_connected in
        (shows_network d ≡ eth_connected) × (shows_usb d ≡ usb_connected))
unfolding led_rgb_state led_rgb_set_raw
led_rgb_state_lem true true = (refl, refl)
led_rgb_state_lem true false = (refl, refl)
led_rgb_state_lem false true = (refl, refl)
led_rgb_state_lem false false = (refl, refl)
