-- ===== src/Msc.antt =====
-- The mass storage host of main/usb_host/usb_host_msc.c: the devices, the state that the rest of the
-- program asks for, and starting and stopping. The answers of ESP-IDF are inputs.
pub mod Slots
mod Starting
pub mod Task
mod Emptied
mod Stopped
mod Tests
use esp32_deskflow.Prelude.{
  ℕ, zero, suc, ◌==◌, Bool, true, false, not, ◌||◌, List, [], ◌∷◌, set, if◌then◌else◌, Option, none,
  some, replicate,
}
use esp32_deskflow.Esp.{
  EspErr, esp_ok, esp_fail, esp_err_no_mem, esp_err_not_found, esp_err_invalid_state,
  esp_err_timeout, is_ok,
}

-- `usb_msc_state_t`
pub data MscState : Type 0 where
  inactive activating mounted error : MscState

-- `msc_entry_t`, with the handle of the device; the file system is registered for each entry.
pub record Entry : Type 0 where
  pub usb_addr : ℕ
  pub msc_device : ℕ

-- `s_devices`, `s_state`, `s_stop`, `s_mounted_sem`, and whether `s_task_handle` is set.
pub record Msc : Type 0 where
  pub devices : List (Option Entry)
  pub state : MscState
  pub stop : Bool
  pub mounted_sem : Bool
  pub has_task : Bool

-- The variables behind `usb_host_msc_init` on the first call; the number of devices is an option of the
-- build.
unfoldable pub usb_host_msc_init : ℕ → Msc
usb_host_msc_init max_msc_devices = record {
  devices = replicate max_msc_devices none;
  state = MscState.inactive;
  stop = false;
  mounted_sem = false;
  has_task = false;
}

-- The index of the slot, from `i` on; none is the -1.
abbrev pub find_free_slot : ℕ → List (Option Entry) → Option ℕ
find_free_slot i [] = none
find_free_slot i (none ∷ devices) = some i
find_free_slot i (some entry ∷ devices) = find_free_slot (suc i) devices

abbrev pub find_slot_by_handle : ℕ → ℕ → List (Option Entry) → Option ℕ
find_slot_by_handle handle i [] = none
find_slot_by_handle handle i (none ∷ devices) = find_slot_by_handle handle (suc i) devices
find_slot_by_handle handle i (some entry ∷ devices) =
    let rest = find_slot_by_handle handle (suc i) devices in
    if entry.msc_device == handle then some i else rest

-- What connecting meets: calloc, msc_host_install_device with the handle that it gives, and
-- msc_host_vfs_register.
pub record Connecting : Type 0 where
  pub allocated : Bool
  pub installed : EspErr
  pub handle : ℕ
  pub registered : EspErr

abbrev pub is_activating : MscState → Bool
is_activating MscState.activating = true
is_activating _ = false

abbrev pub is_mounted : MscState → Bool
is_mounted MscState.mounted = true
is_mounted _ = false

-- "Signal that we're ready"
abbrev pub signal_ready : Msc → Msc
signal_ready m =
    if is_activating m.state then record m { state = MscState.mounted; mounted_sem = true } else m

-- `handle_device_connected`; the configuration is loaded again at its end, see Config.
unfoldable pub handle_device_connected : Connecting → ℕ → Msc → EspErr × Msc
handle_device_connected c addr m = elim (find_free_slot 0 m.devices) [
  | none ↦ (esp_err_not_found, m)
  | some slot ↦
      if not c.allocated
      then (esp_err_no_mem, m)
      else if not (is_ok c.installed)
      then (c.installed, record m { devices = set m.devices slot none })
      else if not (is_ok c.registered)
      then (c.registered, record m { devices = set m.devices slot none })
      else (
        esp_ok,
        signal_ready (record m {
          devices = set m.devices slot (some (record { usb_addr = addr; msc_device = c.handle }));
        }),
      )
]

unfoldable pub handle_device_disconnected : ℕ → Msc → Msc
handle_device_disconnected handle m = elim (find_slot_by_handle handle 0 m.devices) [
  | none ↦ m
  | some slot ↦ record m { devices = set m.devices slot none }
]

unfoldable pub usb_host_msc_is_mounted : Msc → Bool
usb_host_msc_is_mounted m = is_mounted m.state

-- `ret == ESP_ERR_INVALID_STATE`
abbrev pub is_invalid_state : EspErr → Bool
is_invalid_state esp_err_invalid_state = true
is_invalid_state _ = false

-- The head of `usb_host_task`, with the results of usb_host_install and msc_host_install: whether the
-- task goes on to its loop.
unfoldable pub usb_host_task_setup : EspErr → EspErr → Msc → Bool × Msc
usb_host_task_setup host msc m =
    let running = record m { stop = false } in
    let failed = record running { has_task = false; state = MscState.error; mounted_sem = true } in
    if not (is_ok host || is_invalid_state host)
    then (false, failed)
    else if not (is_ok msc)
    then (false, failed)
    else (true, running)

-- `usb_host_msc_start`, with the result of xTaskCreate and what the task does to the state until the
-- semaphore is given or the time is over; in the second case it waits for the task's end.
unfoldable pub usb_host_msc_start : Bool → (Msc → Msc) → Msc → EspErr × Msc
usb_host_msc_start created task m =
    if is_mounted m.state
    then (esp_ok, m)
    else if is_activating m.state
    then (esp_err_invalid_state, m)
    else (let m1 = record m { state = MscState.activating; stop = false; mounted_sem = false } in
        if not created
        then (esp_fail, record m1 { state = MscState.error })
        else (let m2 = task (record m1 { has_task = true }) in
            if m2.mounted_sem then (esp_ok, record m2 { mounted_sem = false }) else (
              esp_err_timeout,
              record m2 {
                stop = true;
                mounted_sem = false;
                state = MscState.inactive;
                has_task = false;
              },
            )))
