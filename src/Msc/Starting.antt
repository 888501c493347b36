-- ===== src/Msc/Starting.antt =====
-- Starting the mass storage host of main/usb_host/usb_host_msc.c.
use esp32_deskflow.Prelude.{◌≡◌, refl, true, false}
use esp32_deskflow.Esp.{EspErr, esp_ok, is_ok}
use esp32_deskflow.Msc.{
  Msc, is_activating, is_mounted, is_invalid_state, usb_host_task_setup, usb_host_msc_start,
  usb_host_msc_is_mounted,
}

-- When the task cannot install the host driver, usb_host_msc_start returns ESP_OK, and nothing is mounted.
pub start_hides_error :
    (host msc : EspErr) (m : Msc)
    → is_mounted m.state ≡ false
    → is_activating m.state ≡ false
    → is_ok host ≡ false
    → is_invalid_state host ≡ false
    → (let (err, m') = usb_host_msc_start true (λ t. (usb_host_task_setup host msc t).1) m in
        (err ≡ esp_ok) × (usb_host_msc_is_mounted m' ≡ false))
unfolding usb_host_msc_start usb_host_task_setup usb_host_msc_is_mounted
start_hides_error host msc m idle inactive bad other = rw (idle, inactive, bad, other) (refl, refl)
