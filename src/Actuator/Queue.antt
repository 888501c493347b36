-- ===== src/Actuator/Queue.antt =====
-- The functions of main/tusb/tusb_actuator.c that the network task calls to queue commands.
use esp32_deskflow.Prelude.{
  ℕ, zero, suc, ◌+◌, ◌-◌, ◌%◌, ◌^◌, ℤ, eqb_ℤ, Bool, ◌&&◌, Option, some, none, ltb, ◌==◌,
  if◌then◌else◌,
}
use esp32_deskflow.Esp.{EspErr, esp_ok, esp_err_timeout}
use esp32_deskflow.Actuator.{
  Cmd, key_down, key_up, mouse_down, mouse_up, mouse_wheel, enter, leave, jiggle, connected,
  disconnected, set_screen_size, set_scaling, CmdQueue, Actuator, act_cmd_key_down, act_cmd_key_up,
  act_cmd_mouse_down, act_cmd_mouse_up,
}

abbrev pub act_dedup_ms : ℕ
act_dedup_ms = 30

-- `(now - then) < ACT_DEDUP_MS` in `uint64_t`.
abbrev pub recent : ℕ → ℕ → Bool
recent now before = ltb ((now + 2 ^ 64 - before) % 2 ^ 64) act_dedup_ms

module _ (fifo : CmdQueue) where
  open fifo use {Handle, send, receive, messages_waiting}

  -- The loop of `_dump_queue`, with the rounds left; what it prints is left out.
  unfoldable pub dump_items : ℕ → Handle → Handle
  dump_items zero q = q
  dump_items (suc left) q = dump_items left (receive q).1

  unfoldable pub dump_queue : Actuator Handle → Actuator Handle
  unfolding dump_items
  dump_queue act = record act {
    cmd_queue = dump_items (messages_waiting act.cmd_queue) act.cmd_queue;
  }

  -- `_q`
  unfoldable pub enqueue : Actuator Handle → Cmd → EspErr × Actuator Handle
  enqueue act cmd =
      let (sent, queue) = send cmd act.cmd_queue in
      let act' = record act { cmd_queue = queue } in
      if sent
      then (esp_ok, if act.hid_task then record act' { wakes = act.wakes + 1 } else act')
      else (esp_err_timeout, dump_queue act')

  -- `now` is `esp_timer_get_time() / 1000` in each of these.
  unfoldable pub actuator_queue_key_down :
      ℕ → Actuator Handle → ℕ → ℕ → ℕ → EspErr × Actuator Handle
  actuator_queue_key_down now act key mask button =
      if act.last_queued_kb_type == act_cmd_key_down
        && (act.last_queued_kb_key == key)
        && (act.last_queued_kb_mask == mask)
        && recent now act.last_queued_kb_time
      then (esp_ok, act)
      else enqueue
          (record act {
            last_queued_kb_key = key;
            last_queued_kb_mask = mask;
            last_queued_kb_type = act_cmd_key_down;
            last_queued_kb_time = now;
          })
          (key_down key mask button)

  unfoldable pub actuator_queue_key_up : ℕ → Actuator Handle → ℕ → ℕ → ℕ → EspErr × Actuator Handle
  actuator_queue_key_up now act key mask button =
      if act.last_queued_kb_type == act_cmd_key_up
        && (act.last_queued_kb_key == key)
        && (act.last_queued_kb_mask == mask)
        && recent now act.last_queued_kb_time
      then (esp_ok, act)
      else enqueue
          (record act {
            last_queued_kb_key = key;
            last_queued_kb_mask = mask;
            last_queued_kb_type = act_cmd_key_up;
            last_queued_kb_time = now;
          })
          (key_up key mask button)

  unfoldable pub actuator_queue_key_repeat :
      Actuator Handle → ℕ → ℕ → ℕ → ℕ → EspErr × Actuator Handle
  actuator_queue_key_repeat act key mask button count = (esp_ok, act)

  unfoldable pub actuator_queue_mouse_down : ℕ → Actuator Handle → ℤ → EspErr × Actuator Handle
  actuator_queue_mouse_down now act button =
      if act.last_queued_btn_type == act_cmd_mouse_down
        && eqb_ℤ act.last_queued_btn_id button
        && recent now act.last_queued_btn_time
      then (esp_ok, act)
      else enqueue
          (record act {
            last_queued_btn_id = button;
            last_queued_btn_type = act_cmd_mouse_down;
            last_queued_btn_time = now;
          })
          (mouse_down button)

  unfoldable pub actuator_queue_mouse_up : ℕ → Actuator Handle → ℤ → EspErr × Actuator Handle
  actuator_queue_mouse_up now act button =
      if act.last_queued_btn_type == act_cmd_mouse_up
        && eqb_ℤ act.last_queued_btn_id button
        && recent now act.last_queued_btn_time
      then (esp_ok, act)
      else enqueue
          (record act {
            last_queued_btn_id = button;
            last_queued_btn_type = act_cmd_mouse_up;
            last_queued_btn_time = now;
          })
          (mouse_up button)

  unfoldable pub actuator_queue_mouse_wheel : ℕ → Actuator Handle → ℤ → ℤ → EspErr × Actuator Handle
  actuator_queue_mouse_wheel now act dx dy =
      if recent now act.last_queued_wheel_time
      then (esp_ok, act)
      else enqueue (record act { last_queued_wheel_time = now }) (mouse_wheel dx dy)

  unfoldable pub actuator_queue_enter : Actuator Handle → ℕ → ℕ → ℕ → EspErr × Actuator Handle
  actuator_queue_enter act x y mask = enqueue act (enter x y mask)

  unfoldable pub actuator_queue_leave : Actuator Handle → EspErr × Actuator Handle
  actuator_queue_leave act = enqueue act leave

  unfoldable pub actuator_queue_jiggle : Actuator Handle → EspErr × Actuator Handle
  actuator_queue_jiggle act = enqueue act jiggle

  unfoldable pub actuator_queue_connected : Actuator Handle → EspErr × Actuator Handle
  actuator_queue_connected act = enqueue act connected

  -- `while (xQueueReceive(...) == pdTRUE) {}` on fuel.
  unfoldable pub flush : ℕ → Handle → Option Handle
  flush zero q = none
  flush (suc fuel) q = elim (receive q).0 [
    | none ↦ some (receive q).1
    | some c ↦ flush fuel (receive q).1
  ]

  -- `fuel` bounds the rounds of the loop; `none` means that it is still running.
  unfoldable pub actuator_queue_disconnected :
      ℕ → Actuator Handle → Option (EspErr × Actuator Handle)
  actuator_queue_disconnected fuel act = elim (flush fuel act.cmd_queue) [
    | none ↦ none
    | some q ↦ some (enqueue (record act { cmd_queue = q }) disconnected)
  ]

  unfoldable pub actuator_queue_set_screen_size : Actuator Handle → ℕ → ℕ → EspErr × Actuator Handle
  actuator_queue_set_screen_size act w h = enqueue act (set_screen_size w h)

  unfoldable pub actuator_queue_set_scaling : Actuator Handle → ℕ → EspErr × Actuator Handle
  actuator_queue_set_scaling act scaling = enqueue act (set_scaling scaling)
