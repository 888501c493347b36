-- ===== src/Msc/Tests.antt =====
-- The mass storage host of main/usb_host/usb_host_msc.c at concrete inputs.
use esp32_deskflow.Prelude.{◌≡◌, refl, true, false, [], ◌∷◌, none, some, length, replicate}
use esp32_deskflow.Esp.{esp_ok}
use esp32_deskflow.Msc.{
  Msc, MscState, handle_device_connected, handle_device_disconnected, usb_host_msc_is_mounted,
}
use esp32_deskflow.Msc.Slots.{plugging, unplugged_still_mounted}
use esp32_deskflow.Msc.Task.{Round, disconnected, to_end, to_slot, usb_host_msc_stop}
use esp32_deskflow.Msc.Stopped.{usb_host_msc_stop_lem}

abbrev waiting : Msc
waiting = record {
  devices = none ∷ none ∷ [];
  state = MscState.activating;
  stop = false;
  mounted_sem = false;
  has_task = true;
}

unplugged_still_mounted_example :
    (let (err, plugged) = handle_device_connected (plugging 9) 1 waiting in
      let pulled = handle_device_disconnected 9 plugged in
      (err ≡ esp_ok) × (pulled.devices ≡ waiting.devices) × (usb_host_msc_is_mounted pulled ≡ true))
unplugged_still_mounted_example = unplugged_still_mounted 1 9 0 waiting refl refl refl

abbrev idle : Msc
idle = record waiting { state = MscState.inactive; has_task = false }

abbrev last : Round
last = record {
  message = some (disconnected 9);
  connecting = plugging 9;
  stop = false;
  all_free = false;
  no_clients = false;
}

abbrev two_sticks : Msc
two_sticks = record waiting {
  devices =
      some (record { usb_addr = 1; msc_device = 9 })
      ∷ some (record { usb_addr = 2; msc_device = 7 })
      ∷ [];
  state = MscState.mounted;
}

usb_host_msc_stop_lem_example :
    (let ended = usb_host_msc_stop (last ∷ []) to_end two_sticks in
      (ended.state ≡ MscState.inactive)
      × (ended.devices ≡ replicate (length two_sticks.devices) none)
      × (ended.has_task ≡ false))
    × (usb_host_msc_stop [] to_end two_sticks
        ≡ record two_sticks { state = MscState.inactive; stop = true })
    × (let late = usb_host_msc_stop (last ∷ []) (to_slot 1) two_sticks in
        (late.state ≡ MscState.inactive) × (late.has_task ≡ true))
usb_host_msc_stop_lem_example = usb_host_msc_stop_lem last [] 1 to_end two_sticks refl refl
