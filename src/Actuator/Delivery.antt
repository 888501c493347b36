-- ===== src/Actuator/Delivery.antt =====
-- Which commands reach the HID task through the queue of main/tusb/tusb_actuator.c.
use esp32_deskflow.Prelude.{
  ℕ, zero, suc, ◌+◌, ◌^◌, ◌≤◌, ◌<◌, ◌≡◌, ◌⊎◌, inl, inr, refl, ap, ◌∙◌, arith, Bool, true, false,
  ◌&&◌, List, [], ◌∷◌, ◌++◌, Option, some, length, Bool-cases, ◌==◌, if◌then◌else◌,
}
use esp32_deskflow.Esp.{EspErr, esp_ok, esp_err_timeout}
use esp32_deskflow.Actuator.{
  Cmd, disconnected, key_down, CmdQueue, Actuator, act_important_queue_depth, act_cmd_key_down,
}
use esp32_deskflow.Actuator.Queue.{
  dump_items, dump_queue, enqueue, recent, act_dedup_ms, actuator_queue_key_down, flush,
  actuator_queue_disconnected,
}

module _ (fifo : CmdQueue) where
  open fifo use {
    Handle, contents, send, receive, messages_waiting, send_accepted, send_refused, send_room,
    receive_empty, receive_first, messages_waiting_lem,
  }

  -- The commands that the HID task will still see.
  abbrev pub queued : Actuator Handle → List Cmd
  queued act = contents act.cmd_queue

  dump_items_all :
      (cs : List Cmd) (q : Handle) → contents q ≡ cs → contents (dump_items fifo (length cs) q) ≡ []
  unfolding dump_items
  dump_items_all [] q e = e
  dump_items_all (c ∷ cs) q e = dump_items_all cs (receive q).1 (receive_first q c cs e).1

  dump_queue_lem : (act : Actuator Handle) → queued (dump_queue fifo act) ≡ []
  unfolding dump_queue
  dump_queue_lem act =
      rw (messages_waiting_lem act.cmd_queue) (dump_items_all (queued act) act.cmd_queue refl)

  wake-queued :
      (b : Bool) (w : ℕ) (act : Actuator Handle)
      → queued (if b then record act { wakes = w } else act) ≡ queued act
  wake-queued true w act = refl
  wake-queued false w act = refl

  full :
      (q : Handle) (c : Cmd)
      → (send c q).0 ≡ false
      → act_important_queue_depth ≤ length (contents q)
  full q c refused = ground (arith, send_room c q)

  -- `_q` either returns ESP_OK with the command at the end of the queue, or, which happens on a
  -- full queue alone, returns ESP_ERR_TIMEOUT with the queue emptied: the dump does not put back
  -- what it prints.
  pub enqueue_branches :
      (act : Actuator Handle) (cmd : Cmd)
      → (let (e, act') = enqueue fifo act cmd in
          (e ≡ esp_ok) × (queued act' ≡ queued act ++ cmd ∷ [])
          ⊎ (e ≡ esp_err_timeout)
            × (queued act' ≡ [])
            × (act_important_queue_depth ≤ length (queued act)))
  unfolding enqueue
  enqueue_branches act cmd = elim (Bool-cases (send cmd act.cmd_queue).0) [
    | inl sent ↦ rw sent (
        inl (
          refl,
          wake-queued act.hid_task (act.wakes + 1)
                (record act { cmd_queue = (send cmd act.cmd_queue).1 })
              ∙ send_accepted cmd act.cmd_queue sent,
        ))
    | inr refused ↦ rw refused (
        inr (
          refl,
          dump_queue_lem (record act { cmd_queue = (send cmd act.cmd_queue).1 }),
          full act.cmd_queue cmd refused,
        ))
  ]

  -- A press that the full queue refused is reported as queued when the caller tries again within
  -- 30 ms: the second call returns ESP_OK, changes nothing, and the queue stays empty.
  pub refused_press_lost :
      (act : Actuator Handle) (key mask button now later : ℕ)
      → (send (key_down key mask button) act.cmd_queue).0 ≡ false
      → recent now act.last_queued_kb_time ≡ false
      → now ≤ later
      → later < now + act_dedup_ms
      → later < 2 ^ 64
      → (let (e, act') = actuator_queue_key_down fifo now act key mask button in
          (e ≡ esp_err_timeout)
          × (actuator_queue_key_down fifo later act' key mask button ≡ (esp_ok, act'))
          × (queued act' ≡ []))
  unfolding actuator_queue_key_down enqueue dump_queue
  refused_press_lost act key mask button now later refused old order soon wide =
      let again : recent later now ≡ true = ground arith in
      let act' = record act {
        last_queued_kb_key = key;
        last_queued_kb_mask = mask;
        last_queued_kb_type = act_cmd_key_down;
        last_queued_kb_time = now;
        cmd_queue = (send (key_down key mask button) act.cmd_queue).1;
      } in
      let fresh : (act.last_queued_kb_type == act_cmd_key_down
            && (act.last_queued_kb_key == key)
            && (act.last_queued_kb_mask == mask)
            && recent now act.last_queued_kb_time)
          ≡ false =
        ground (arith, old) in
      let same : (act_cmd_key_down == act_cmd_key_down
            && (key == key)
            && (mask == mask)
            && recent later now)
          ≡ true =
        ground (arith, again) in
      rw fresh (rw refused (refl, rw same refl, dump_queue_lem act'))

  flush-contents :
      (cs : List Cmd) (q : Handle) (fuel : ℕ)
      → contents q ≡ cs
      → length cs < fuel
      → (q' : Handle) × (flush fifo fuel q ≡ some q') × (contents q' ≡ [])
  unfolding flush
  flush-contents cs q zero e h = absurd (omega arith)
  flush-contents [] q (suc fuel) e h = (
    (receive q).1,
    rw (ap (λ (r : Option Cmd × Handle). r.0) (receive_empty q e), flush) refl,
    ap (λ (r : Option Cmd × Handle). contents r.1) (receive_empty q e) ∙ e,
  )
  flush-contents (c ∷ cs) q (suc fuel) e h =
      let (first, rest) = receive_first q c cs e in
      let (q', runs, empty) = flush-contents cs (receive q).1 fuel rest (omega arith) in
      (q', rw (first, flush) runs, empty)

  -- With fuel for one round more than there are commands, the loop of actuator_queue_disconnected
  -- ends, and the call returns ESP_OK with DISCONNECTED as the only command.
  pub disconnected_lem :
      (act : Actuator Handle) (fuel : ℕ)
      → length (queued act) < fuel
      → (act' : Actuator Handle) × (actuator_queue_disconnected fifo fuel act ≡ some (esp_ok, act'))
        × (queued act' ≡ disconnected ∷ [])
  unfolding actuator_queue_disconnected
  disconnected_lem act fuel h =
      let (q', runs, empty) = flush-contents (queued act) act.cmd_queue fuel refl h in
      let act' = record act { cmd_queue = q' } in
      elim (enqueue_branches act' disconnected) [
        | inl (ok, last) ↦ (
          (enqueue fifo act' disconnected).1,
          rw (runs, actuator_queue_disconnected)
              (ap (λ (e : EspErr). some (e, (enqueue fifo act' disconnected).1)) ok),
          last ∙ ap (λ (cs : List Cmd). cs ++ disconnected ∷ []) empty,
        )
        | inr (_, _, many) ↦ absurd (ground (arith, empty, many))
      ]
