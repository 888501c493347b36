-- ===== src/Msc/Slots.antt =====
-- The device slots of main/usb_host/usb_host_msc.c.
use esp32_deskflow.Prelude.{
  ℕ, suc, ◌+◌, ◌==◌, ◌≡◌, refl, ap, ◌∙◌, subst, arith, true, List, [], ◌∷◌, set, if◌then◌else◌,
  Option, none, some, Bool-cases, inl, inr,
}
use esp32_deskflow.Esp.{EspErr, esp_ok, esp_err_not_found}
use esp32_deskflow.Msc.{
  Entry, Msc, MscState, Connecting, find_free_slot, find_slot_by_handle, handle_device_connected,
  handle_device_disconnected, is_activating, is_mounted, signal_ready, usb_host_msc_is_mounted,
}

-- The slot that is filled is the one that is found again, and emptying it undoes the filling.
record Filled (i slot handle : ℕ) (devices : List (Option Entry)) (e : Entry) : Type 0 where
  place : ℕ
  counted : slot ≡ i + place
  found : find_slot_by_handle handle i (set devices place (some e)) ≡ some slot
  undone : set (set devices place (some e)) place none ≡ devices

filled :
    (i slot handle : ℕ) (devices : List (Option Entry)) (e : Entry)
    → find_free_slot i devices ≡ some slot
    → find_slot_by_handle handle i devices ≡ none
    → (e.msc_device == handle) ≡ true
    → Filled i slot handle devices e
filled i slot handle [] e free unknown same = absurd (ground arith)
filled i slot handle (none ∷ devices) e free unknown same =
    let here : i ≡ slot = ground arith in
    record { place = 0; counted = omega arith; found = rw same (ap some here); undone = refl }
filled i slot handle (some other ∷ devices) e free unknown same =
    elim (Bool-cases (other.msc_device == handle)) [
      | inl clash ↦ absurd (ground arith)
      | inr differs ↦
          let unknown_too : find_slot_by_handle handle (suc i) devices ≡ none = ground arith in
          let rest = filled (suc i) slot handle devices e free unknown_too same in
          record {
            place = suc rest.place;
            counted = omega (arith, rest.counted);
            found = rw differs rest.found;
            undone = ap (λ ds. some other ∷ ds) rest.undone;
          }
    ]

-- What a stick does that is plugged in without an error.
abbrev pub plugging : ℕ → Connecting
plugging handle = record {
  allocated = true;
  installed = esp_ok;
  handle = handle;
  registered = esp_ok;
}

connected_lem :
    (addr handle slot : ℕ) (m : Msc)
    → find_free_slot 0 m.devices ≡ some slot
    → m.state ≡ MscState.activating
    → handle_device_connected (plugging handle) addr m ≡ (
      esp_ok,
      record m {
        devices = set m.devices slot (some (record { usb_addr = addr; msc_device = handle }));
        state = MscState.mounted;
        mounted_sem = true;
      },
    )
unfolding handle_device_connected
connected_lem addr handle slot m free waiting =
    let put = λ (k : ℕ). set m.devices k (some (record { usb_addr = addr; msc_device = handle })) in
    let filled_in : Msc = record m { devices = put slot } in
    let ready : Msc = record filled_in { state = MscState.mounted; mounted_sem = true } in
    ap
      (λ (o : Option ℕ). elim o as (λ x. EspErr × Msc) [
        | none ↦ (esp_err_not_found, m)
        | some k ↦ (esp_ok, signal_ready (record m { devices = put k }))
      ])
      free
    ∙ ap (λ (st : MscState). (esp_ok, if is_activating st then ready else filled_in)) waiting

disconnected_lem :
    (handle slot : ℕ) (m : Msc)
    → find_slot_by_handle handle 0 m.devices ≡ some slot
    → handle_device_disconnected handle m ≡ record m { devices = set m.devices slot none }
unfolding handle_device_disconnected
disconnected_lem handle slot m found =
    ap
      (λ (o : Option ℕ). elim o as (λ x. Msc) [
        | none ↦ m
        | some k ↦ record m { devices = set m.devices k none }
      ])
      found

-- A stick that is plugged in while the host is starting, and pulled again: the slots are as before, and
-- the host still counts as mounted.
pub unplugged_still_mounted :
    (addr handle slot : ℕ) (m : Msc)
    → find_free_slot 0 m.devices ≡ some slot
    → find_slot_by_handle handle 0 m.devices ≡ none
    → m.state ≡ MscState.activating
    → (let (err, plugged) = handle_device_connected (plugging handle) addr m in
        let pulled = handle_device_disconnected handle plugged in
        (err ≡ esp_ok) × (pulled.devices ≡ m.devices) × (usb_host_msc_is_mounted pulled ≡ true))
unfolding usb_host_msc_is_mounted
unplugged_still_mounted addr handle slot m free unknown waiting =
    let e : Entry = record { usb_addr = addr; msc_device = handle } in
    let f = filled 0 slot handle m.devices e free unknown (ground arith) in
    let here : f.place ≡ slot = omega (arith, f.counted) in
    let plugged : Msc = record m {
      devices = set m.devices slot (some e);
      state = MscState.mounted;
      mounted_sem = true;
    } in
    let connect = connected_lem addr handle slot m free waiting in
    let found : find_slot_by_handle handle 0 plugged.devices ≡ some slot =
      subst (λ (k : ℕ). find_slot_by_handle handle 0 (set m.devices k (some e)) ≡ some slot) here
        f.found in
    let undone : set plugged.devices slot none ≡ m.devices =
      subst (λ (k : ℕ). set (set m.devices k (some e)) k none ≡ m.devices) here f.undone in
    let pulled : handle_device_disconnected handle
          (handle_device_connected (plugging handle) addr m).1
        ≡ record plugged { devices = set plugged.devices slot none } =
      ap (λ (r : EspErr × Msc). handle_device_disconnected handle r.1) connect
      ∙ disconnected_lem handle slot plugged found in
    (
      ap (λ (r : EspErr × Msc). r.0) connect,
      ap (λ (p : Msc). p.devices) pulled ∙ undone,
      ap (λ (p : Msc). is_mounted p.state) pulled,
    )
