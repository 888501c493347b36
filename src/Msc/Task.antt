-- ===== src/Msc/Task.antt =====
-- The event loop of usb_host_task in main/usb_host/usb_host_msc.c, its end, and stopping.
use esp32_deskflow.Prelude.{
  ℕ, zero, suc, Bool, true, false, ◌&&◌, ◌||◌, List, [], ◌∷◌, ◌++◌, length, get_elem?,
  if◌then◌else◌, Option, none, some,
}
use esp32_deskflow.Msc.{
  Entry, Msc, MscState, Connecting, handle_device_connected, handle_device_disconnected,
}

-- `msc_event_msg_t`
pub data Message : Type 0 where
  connected disconnected : ℕ → Message

-- The events of the MSC driver, with the address or the handle; it may know others.
pub data DriverEvent : Type 0 where
  device_connected device_disconnected : ℕ → DriverEvent
  unknown : DriverEvent

-- `msc_event_cb`: the queue behind xQueueSend, which waits for room.
unfoldable pub msc_event_cb : DriverEvent → List Message → List Message
msc_event_cb (device_connected addr) queue = queue ++ connected addr ∷ []
msc_event_cb (device_disconnected handle) queue = queue ++ disconnected handle ∷ []
msc_event_cb unknown queue = queue

-- One round of the loop: the message that xQueueReceive gives within 100 ms, what connecting meets,
-- whether another task has set `s_stop` by then, and whether the host library reports that all devices are
-- free and that there are no clients.
pub record Round : Type 0 where
  pub message : Option Message
  pub connecting : Connecting
  pub stop : Bool
  pub all_free : Bool
  pub no_clients : Bool

abbrev pub message_handled : Connecting → Option Message → Msc → Msc
message_handled c none m = m
message_handled c (some (connected addr)) m = (handle_device_connected c addr m).1
message_handled c (some (disconnected handle)) m = handle_device_disconnected handle m

-- The body of the loop: whether it goes on.
unfoldable pub loop_round : Round → Msc → Bool × Msc
unfolding handle_device_connected handle_device_disconnected
loop_round r m =
    let m = message_handled r.connecting r.message (record m { stop = m.stop || r.stop }) in
    if m.stop then (false, m) else if r.all_free && r.no_clients then (false, m) else (true, m)

-- The loop on the rounds that it meets: whether it goes on behind the last of them.
unfoldable pub event_loop : List Round → Msc → Bool × Msc
unfolding loop_round
event_loop [] m = (true, m)
event_loop (r ∷ rounds) m =
    let (going, m) = loop_round r m in
    let rest = event_loop rounds m in if going then rest else (false, m)

abbrev pub slot_emptied : Option (Option Entry) → Msc → Msc
slot_emptied none m = m
slot_emptied (some none) m = m
slot_emptied (some (some entry)) m = handle_device_disconnected entry.msc_device m

-- "Cleanup devices", for `left` more slots from index `i` on.
unfoldable pub cleanup_devices : ℕ → ℕ → Msc → Msc
unfolding handle_device_disconnected
cleanup_devices zero i m = m
cleanup_devices (suc left) i m =
    cleanup_devices left (suc i) (slot_emptied (get_elem? m.devices i) m)

-- What `usb_host_task` does behind its loop.
unfoldable pub usb_host_task_end : Msc → Msc
unfolding cleanup_devices
usb_host_task_end m = record (cleanup_devices (length m.devices) 0 m) {
  has_task = false;
  mounted_sem = true;
}

-- How far the task comes behind its loop: to its end, or to the slot of that index in the clean-up.
pub data Progress : Type 0 where
  to_end : Progress
  to_slot : ℕ → Progress

abbrev pub task_left : Progress → Bool × Msc → Msc
unfolding cleanup_devices
task_left p (true, m) = m
task_left to_end (false, m) = usb_host_task_end m
task_left (to_slot n) (false, m) = cleanup_devices n 0 m

-- The task from its loop on, for these rounds, and so far behind the loop.
unfoldable pub usb_host_task_rest : List Round → Progress → Msc → Msc
unfolding event_loop usb_host_task_end
usb_host_task_rest rounds p m = task_left p (event_loop rounds m)

abbrev pub is_inactive : MscState → Bool
is_inactive MscState.inactive = true
is_inactive _ = false

-- `usb_host_msc_stop`, with the rounds of the task within the two seconds for which it waits, and how
-- far the task comes behind its loop in that time. The wait ends early when the task has ended; the
-- state is the same behind a time-out.
unfoldable pub usb_host_msc_stop : List Round → Progress → Msc → Msc
unfolding usb_host_task_rest
usb_host_msc_stop rounds p m =
    let stopping = record m { stop = true } in
    let waited = if m.has_task then usb_host_task_rest rounds p stopping else stopping in
    if is_inactive m.state then m else record waited { state = MscState.inactive }
