-- ===== src/Button.antt =====
-- main/button_reset.c: the reset button. The GPIO driver is a parameter, by what its calls answer.
use esp32_deskflow.Prelude.{◌≡◌, ◌↔◌, arith, Bool, true, false, not, ◌&&◌, ◌||◌, if◌then◌else◌}
use esp32_deskflow.Esp.{EspErr, esp_ok, is_ok}
use esp32_deskflow.Msc.{is_invalid_state}

-- Whether the pin is configured and the interrupt's handler is installed.
pub record Button : Type 0 where
  pub configured : Bool
  pub handler : Bool

-- `button_reset_init`, with the results of gpio_config, gpio_install_isr_service and gpio_isr_handler_add.
unfoldable pub button_reset_init : EspErr → EspErr → EspErr → Button → EspErr × Button
button_reset_init config service added b =
    if not (is_ok config)
    then (config, b)
    else let b = record b { configured = true } in
      if not (is_ok service || is_invalid_state service)
      then (service, b)
      else if not (is_ok added)
      then (added, b)
      else (esp_ok, record b { handler = true })

-- `button_reset_deinit`
unfoldable pub button_reset_deinit : Button → Button
button_reset_deinit b = record b { handler = false }

-- `button_reset_isr_handler`: whether the chip restarts on a press.
unfoldable pub pressed : Button → Bool
pressed b = b.configured && b.handler

-- From a button without handler, a press restarts the chip exactly when button_reset_init returned ESP_OK,
-- also where the interrupt service was there before, and never behind button_reset_deinit.
button_reset_init_lem :
    (config service added : EspErr)
    → (let (err, b) =
          button_reset_init config service added (record { configured = false; handler = false }) in
        ((err ≡ esp_ok) ↔ (pressed b ≡ true)) × (pressed (button_reset_deinit b) ≡ false))
unfolding button_reset_init button_reset_deinit pressed
button_reset_init_lem config service added = (ground arith, ground arith)
