-- ===== src/Msc/Emptied.antt =====
-- The end of the task in main/usb_host/usb_host_msc.c.
use esp32_deskflow.Prelude.{
  ℕ, zero, suc, ◌+◌, ◌==◌, ◌≡◌, refl, sym, ap, ◌∙◌, arith, Bool, true, false, List, [], ◌∷◌, ◌++◌,
  length, get_elem?, set, replicate, Option, none, some,
}
use esp32_deskflow.Esp.{esp_ok}
use esp32_deskflow.Msc.{
  Entry, Msc, MscState, is_mounted, find_slot_by_handle, handle_device_disconnected,
  usb_host_msc_start, usb_host_msc_is_mounted,
}
use esp32_deskflow.Msc.Task.{slot_emptied, cleanup_devices, usb_host_task_end}

-- Behind empty slots a device is found where it is.
found_behind :
    (i k : ℕ) (e : Entry) (ds : List (Option Entry))
    → find_slot_by_handle e.msc_device k (replicate i none ++ some e ∷ ds) ≡ some (k + i)
found_behind zero k e ds =
    let own : (e.msc_device == e.msc_device) ≡ true = ground arith in rw own (ap some (omega arith))
found_behind (suc i) k e ds = found_behind i (suc k) e ds ∙ ap some (omega arith)

set_behind :
    (i : ℕ) (o v : Option Entry) (ds : List (Option Entry))
    → set (replicate i none ++ o ∷ ds) i v ≡ replicate i none ++ v ∷ ds
set_behind zero o v ds = refl
set_behind (suc i) o v ds = ap (λ l. none ∷ l) (set_behind i o v ds)

get_behind :
    (i : ℕ) (o : Option Entry) (ds : List (Option Entry))
    → get_elem? (replicate i none ++ o ∷ ds) i ≡ some o
get_behind zero o ds = refl
get_behind (suc i) o ds = get_behind i o ds

replicate_longer :
    (i : ℕ) (ds : List (Option Entry))
    → replicate i none ++ none ∷ ds ≡ replicate (suc i) none ++ ds
replicate_longer zero ds = refl
replicate_longer (suc i) ds = ap (λ l. none ∷ l) (replicate_longer i ds)

emptied_behind :
    (i : ℕ) (o : Option Entry) (ds : List (Option Entry)) (m : Msc)
    → m.devices ≡ replicate i none ++ o ∷ ds
    → slot_emptied (some o) m ≡ record m { devices = replicate i none ++ none ∷ ds }
unfolding handle_device_disconnected
emptied_behind i none ds m same = ap (λ l. record m { devices = l }) same
emptied_behind i (some e) ds m same =
    let found : find_slot_by_handle e.msc_device 0 m.devices ≡ some i =
      ap (find_slot_by_handle e.msc_device 0) same
      ∙ found_behind i 0 e ds
      ∙ ap some (omega arith) in
    ap
      (λ (o : Option ℕ). elim o as (λ x. Msc) [
        | none ↦ m
        | some k ↦ record m { devices = set m.devices k none }
      ])
      found
    ∙ ap (λ l. record m { devices = l })
        (ap (λ l. set l i none) same ∙ set_behind i (some e) none ds)

cleanup_devices_lem :
    (i : ℕ) (ds : List (Option Entry)) (m : Msc)
    → m.devices ≡ replicate i none ++ ds
    → cleanup_devices (length ds) i m
      ≡ record m { devices = replicate i none ++ replicate (length ds) none }
unfolding cleanup_devices
cleanup_devices_lem i [] m same = ap (λ l. record m { devices = l }) same
cleanup_devices_lem i (o ∷ ds) m same =
    let here : get_elem? m.devices i ≡ some o = ap (λ l. get_elem? l i) same ∙ get_behind i o ds in
    let next : Msc = record m { devices = replicate i none ++ none ∷ ds } in
    ap (λ x. cleanup_devices (length ds) (suc i) (slot_emptied x m)) here
    ∙ ap (cleanup_devices (length ds) (suc i)) (emptied_behind i o ds m same)
    ∙ cleanup_devices_lem (suc i) ds next (replicate_longer i ds)
    ∙ ap (λ l. record m { devices = l }) (sym (replicate_longer i (replicate (length ds) none)))

pub usb_host_task_end_lem :
    (m : Msc)
    → usb_host_task_end m ≡ record m {
      devices = replicate (length m.devices) none;
      has_task = false;
      mounted_sem = true;
    }
unfolding usb_host_task_end
usb_host_task_end_lem m =
    ap (λ (e : Msc). record e { has_task = false; mounted_sem = true })
      (cleanup_devices_lem 0 m.devices m refl)

-- When the task that the loop has left was not stopped from outside, the host still counts as mounted:
-- every slot is empty, no task is there, and usb_host_msc_start returns ESP_OK without starting one.
pub ended_still_mounted :
    (created : Bool) (task : Msc → Msc) (m : Msc)
    → m.state ≡ MscState.mounted
    → (let e = usb_host_task_end m in
        (usb_host_msc_start created task e ≡ (esp_ok, e))
        × (e.has_task ≡ false)
        × (e.devices ≡ replicate (length m.devices) none)
        × (usb_host_msc_is_mounted e ≡ true))
unfolding usb_host_msc_start usb_host_msc_is_mounted
ended_still_mounted created task m mounted =
    let e = usb_host_task_end_lem m in
    let on : is_mounted (usb_host_task_end m).state ≡ true =
      ap (λ (x : Msc). is_mounted x.state) e ∙ ap is_mounted mounted in
    (rw on refl, ap (λ (x : Msc). x.has_task) e, ap (λ (x : Msc). x.devices) e, on)
