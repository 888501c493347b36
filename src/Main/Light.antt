-- ===== src/Main/Light.antt =====
-- What the status light of main/main.c shows of the network.
use esp32_deskflow.Prelude.{◌≡◌, ap, ◌∙◌, true, false, Bool, ◌||◌, List, [], ◌∷◌, ◌++◌, arith}
use esp32_deskflow.Msc.{Msc, usb_host_msc_is_mounted}
use esp32_deskflow.Eth.{EthState, Bits, Event, disconnected}
use esp32_deskflow.Eth.Events.{run, address_outlives_link}
use esp32_deskflow.Led.{led_rgb_state}
use esp32_deskflow.Led.Colours.{shows_network, shows_usb, led_rgb_state_lem}
use esp32_deskflow.Log.{Sends}
use esp32_deskflow.Main.{Monitor, monitor_round}

monitor_round_light :
    (bits : Bits) (tud_mounted : Bool) (msc : Msc) (sends : Sends) (mon : Monitor)
    → (monitor_round bits tud_mounted msc sends mon).light
      ≡ led_rgb_state bits.has_ip (tud_mounted || usb_host_msc_is_mounted msc)
unfolding monitor_round
monitor_round_light bits tud_mounted msc sends mon = ground arith

-- In every round of the main loop the light tells whether the address bit is set, and whether a USB host
-- or a stick is there.
pub light_lem :
    (bits : Bits) (tud_mounted : Bool) (msc : Msc) (sends : Sends) (mon : Monitor)
    → (let light = (monitor_round bits tud_mounted msc sends mon).light in
        (shows_network light ≡ bits.has_ip)
        × (shows_usb light ≡ (tud_mounted || usb_host_msc_is_mounted msc)))
light_lem bits tud_mounted msc sends mon =
    let light = monitor_round_light bits tud_mounted msc sends mon in
    let told = led_rgb_state_lem bits.has_ip (tud_mounted || usb_host_msc_is_mounted msc) in
    (ap shows_network light ∙ told.0, ap shows_usb light ∙ told.1)

-- Once the address bit is set, the light of the main loop shows the network as up when the link has gone
-- down behind any events.
pub light_outlives_link :
    (events : List Event) (st : EthState) (bits : Bits) (tud_mounted : Bool) (msc : Msc)
    (sends : Sends) (mon : Monitor)
    → st.bound ≡ true
    → bits.has_ip ≡ true
    → (let (st', bits') = run (events ++ disconnected ∷ []) st bits in
        let light = (monitor_round bits' tud_mounted msc sends mon).light in
        (st'.link_up ≡ false) × (shows_network light ≡ true))
light_outlives_link events st bits tud_mounted msc sends mon bound has =
    let kept = address_outlives_link events st bits bound has in
    let bits' = (run (events ++ disconnected ∷ []) st bits).1 in
    (kept.0, (light_lem bits' tud_mounted msc sends mon).0 ∙ kept.1)
