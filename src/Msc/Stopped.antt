-- ===== src/Msc/Stopped.antt =====
-- Stopping the mass storage host of main/usb_host/usb_host_msc.c.
use esp32_deskflow.Prelude.{
  ℕ, ◌≡◌, refl, ap, ◌∙◌, arith, inl, inr, true, false, ◌||◌, Option-cases, zero, suc, get_elem?,
  List, [], ◌∷◌, length, replicate, if◌then◌else◌, length-set, Option, none, some,
}
use esp32_deskflow.Msc.{
  Entry, Msc, MscState, Connecting, find_free_slot, find_slot_by_handle, handle_device_connected,
  handle_device_disconnected,
}
use esp32_deskflow.Msc.Task.{
  Message, connected, disconnected, Round, message_handled, loop_round, event_loop, slot_emptied,
  cleanup_devices, Progress, to_end, to_slot, task_left, usb_host_task_rest, is_inactive,
  usb_host_msc_stop,
}
use esp32_deskflow.Msc.Emptied.{usb_host_task_end_lem}

connected_length :
    (c : Connecting) (addr : ℕ) (m : Msc)
    → length (handle_device_connected c addr m).1.devices ≡ length m.devices
unfolding handle_device_connected
connected_length c addr m = elim (Option-cases (find_free_slot 0 m.devices)) [
  | inl full ↦ ground arith
  | inr (slot, free) ↦ ground (
    arith,
    length-set m.devices slot none,
    length-set m.devices slot (some (record { usb_addr = addr; msc_device = c.handle })),
  )
]

disconnected_length :
    (handle : ℕ) (m : Msc) → length (handle_device_disconnected handle m).devices ≡ length m.devices
unfolding handle_device_disconnected
disconnected_length handle m = elim (Option-cases (find_slot_by_handle handle 0 m.devices)) [
  | inl unknown ↦ ground arith
  | inr (slot, known) ↦ ground (arith, length-set m.devices slot none)
]

handled_length :
    (c : Connecting) (message : Option Message) (m : Msc)
    → length (message_handled c message m).devices ≡ length m.devices
handled_length c none m = refl
handled_length c (some (connected addr)) m = connected_length c addr m
handled_length c (some (disconnected handle)) m = disconnected_length handle m

connected_stop :
    (c : Connecting) (addr : ℕ) (m : Msc) → (handle_device_connected c addr m).1.stop ≡ m.stop
unfolding handle_device_connected
connected_stop c addr m = ground arith

disconnected_stop : (handle : ℕ) (m : Msc) → (handle_device_disconnected handle m).stop ≡ m.stop
unfolding handle_device_disconnected
disconnected_stop handle m = ground arith

handled_stop :
    (c : Connecting) (message : Option Message) (m : Msc)
    → (message_handled c message m).stop ≡ m.stop
handled_stop c none m = refl
handled_stop c (some (connected addr)) m = connected_stop c addr m
handled_stop c (some (disconnected handle)) m = disconnected_stop handle m

connected_task :
    (c : Connecting) (addr : ℕ) (m : Msc)
    → (handle_device_connected c addr m).1.has_task ≡ m.has_task
unfolding handle_device_connected
connected_task c addr m = ground arith

disconnected_task :
    (handle : ℕ) (m : Msc) → (handle_device_disconnected handle m).has_task ≡ m.has_task
unfolding handle_device_disconnected
disconnected_task handle m = ground arith

handled_task :
    (c : Connecting) (message : Option Message) (m : Msc)
    → (message_handled c message m).has_task ≡ m.has_task
handled_task c none m = refl
handled_task c (some (connected addr)) m = connected_task c addr m
handled_task c (some (disconnected handle)) m = disconnected_task handle m

emptied_task : (o : Option (Option Entry)) (m : Msc) → (slot_emptied o m).has_task ≡ m.has_task
emptied_task none m = refl
emptied_task (some none) m = refl
emptied_task (some (some entry)) m = disconnected_task entry.msc_device m

cleanup_task : (left i : ℕ) (m : Msc) → (cleanup_devices left i m).has_task ≡ m.has_task
unfolding cleanup_devices
cleanup_task zero i m = refl
cleanup_task (suc left) i m =
    cleanup_task left (suc i) (slot_emptied (get_elem? m.devices i) m)
    ∙ emptied_task (get_elem? m.devices i) m

-- The loop is left behind the round in which it sees the flag.
last_round :
    (r : Round) (rounds : List Round) (m : Msc)
    → m.stop ≡ true
    → event_loop (r ∷ rounds) m
      ≡ (false, message_handled r.connecting r.message (record m { stop = m.stop || r.stop }))
unfolding event_loop loop_round
last_round r rounds m stopping =
    let flagged : (m.stop || r.stop) ≡ true = rw stopping refl in
    let seen =
      handled_stop r.connecting r.message (record m { stop = m.stop || r.stop }) ∙ flagged in
    rw seen refl

-- Stopping sets the flag, and the state behind what the task does.
stop_runs :
    (rounds : List Round) (p : Progress) (m : Msc)
    → is_inactive m.state ≡ false
    → m.has_task ≡ true
    → usb_host_msc_stop rounds p m
      ≡ record (usb_host_task_rest rounds p (record m { stop = true })) {
        state = MscState.inactive;
      }
unfolding usb_host_msc_stop
stop_runs rounds p m active on =
    let stopping = record m { stop = true } in
    let done_ = usb_host_task_rest rounds p stopping in
    ap
      (λ b.
        if b
        then m
        else record (if m.has_task then done_ else stopping) { state = MscState.inactive })
      active
    ∙ ap (λ b. record (if b then done_ else stopping) { state = MscState.inactive }) on

-- A host with a task, stopped while it is not inactive, is inactive. When the task gets one more round
-- and comes to its end within the two seconds, whatever the round brings, every slot is empty and no
-- task is there. When it gets no round, it stays with every slot as it was; when it gets a round but
-- not to its end, it stays too.
pub usb_host_msc_stop_lem :
    (r : Round) (rounds : List Round) (n : ℕ) (p : Progress) (m : Msc)
    → is_inactive m.state ≡ false
    → m.has_task ≡ true
    → (let ended = usb_host_msc_stop (r ∷ rounds) to_end m in
        (ended.state ≡ MscState.inactive)
        × (ended.devices ≡ replicate (length m.devices) none)
        × (ended.has_task ≡ false))
      × (usb_host_msc_stop [] p m ≡ record m { state = MscState.inactive; stop = true })
      × (let late = usb_host_msc_stop (r ∷ rounds) (to_slot n) m in
          (late.state ≡ MscState.inactive) × (late.has_task ≡ true))
unfolding usb_host_task_rest event_loop
usb_host_msc_stop_lem r rounds n p m active on =
    let flagged : Msc = record m { stop = true } in
    let left = message_handled r.connecting r.message flagged in
    let loop_left : event_loop (r ∷ rounds) flagged ≡ (false, left) =
      last_round r rounds flagged refl in
    let rest : usb_host_task_rest (r ∷ rounds) to_end flagged ≡ record left {
      devices = replicate (length left.devices) none;
      has_task = false;
      mounted_sem = true;
    } =
      ap (task_left to_end) loop_left ∙ usb_host_task_end_lem left in
    let stays : (usb_host_task_rest (r ∷ rounds) (to_slot n) flagged).has_task ≡ true =
      ap (λ q. (task_left (to_slot n) q).has_task) loop_left
      ∙ cleanup_task n 0 left
      ∙ handled_task r.connecting r.message flagged
      ∙ on in
    let whole = stop_runs (r ∷ rounds) to_end m active on in
    let late = stop_runs (r ∷ rounds) (to_slot n) m active on in
    (
      (
        ap (λ (x : Msc). x.state) whole,
        ap (λ (x : Msc). x.devices) whole
            ∙ ap (λ (x : Msc). x.devices) rest
            ∙ ap (λ n. replicate n none) (handled_length r.connecting r.message flagged),
        ap (λ (x : Msc). x.has_task) whole ∙ ap (λ (x : Msc). x.has_task) rest,
      ),
      stop_runs [] p m active on,
      (ap (λ (x : Msc). x.state) late, ap (λ (x : Msc). x.has_task) late ∙ stays),
    )
