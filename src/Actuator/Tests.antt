-- ===== src/Actuator/Tests.antt =====
-- Runs of the actuator, and its theorems at concrete inputs.
use esp32_deskflow.Prelude.{
  ℕ, ◌+◌, ◌-◌, ◌≤◌, ◌≡◌, ◌↔◌, ◌⊎◌, inl, refl, arith, List, [], ◌∷◌, ◌++◌, Bool, true, false, some,
  length, ltb, if◌then◌else◌, get_or, replicate, pos, negsuc, min,
}
use esp32_deskflow.Esp.{esp_ok, esp_err_timeout}
use esp32_deskflow.Keycodes.{table_us, barrier_key_to_hid, add_modifier, mask_to_tusb_modifier}
use esp32_deskflow.Actuator.{
  Cmd, key_down, mouse_down, leave, Actuator, tusb_actuator_init, act_important_queue_depth,
}
use esp32_deskflow.Actuator.Fifo.{list_fifo}
use esp32_deskflow.Actuator.Queue.{enqueue, actuator_queue_key_down}
use esp32_deskflow.Actuator.Position.{actuator_move_relative}
use esp32_deskflow.Actuator.Keys.{find_key, press_key, release_key}
use esp32_deskflow.Actuator.Report.{usage_of, keyboard_report, bit, HasUsage, keyboard_report_bytes}
use esp32_deskflow.Actuator.Usb.{Usb, df_hid_keyboard}
use esp32_deskflow.Actuator.Hid.{hid_step}
use esp32_deskflow.Actuator.Delivery.{queued, enqueue_branches}
use esp32_deskflow.Actuator.Pointer.{move_relative_lem}
use esp32_deskflow.Actuator.Steps.{IsState, HeldBy, HeldAfter, hid_step_lem, IsState-init}
use esp32_deskflow.Actuator.Progress.{hid_step_completes}
use esp32_deskflow.Actuator.Release.{leave_reports}
use esp32_deskflow.Actuator.System.{Step, start, later, Reach-IsState}

-- An actuator for 1920 by 1080 pixels that has sent a pressed left button, and a sleeping host.
abbrev queue_of : List Cmd → Actuator (List Cmd)
queue_of q = tusb_actuator_init q 1920 1080

abbrev pressed : Actuator (List Cmd)
pressed = record (queue_of []) { mouse_buttons = 1; last_sent_buttons = 1 }

abbrev asleep : List Bool → Usb
asleep replies = record {
  suspended = true;
  remote_wakeup_en = true;
  pending_send = false;
  replies = replies;
  sent = [];
  wakeups = 0;
}

abbrev full_queue : List Cmd
full_queue = replicate 32 leave

press_key_runs : press_key (7 ∷ 9 ∷ 0 ∷ 0 ∷ 0 ∷ 0 ∷ []) 2 4 ≡ (7 ∷ 9 ∷ 4 ∷ 0 ∷ 0 ∷ 0 ∷ [], 3)
unfolding press_key find_key
press_key_runs = refl

release_key_runs : release_key (7 ∷ 9 ∷ 4 ∷ 0 ∷ 0 ∷ 0 ∷ []) 3 7 ≡ (4 ∷ 9 ∷ 0 ∷ 0 ∷ 0 ∷ 0 ∷ [], 2)
unfolding release_key find_key
release_key_runs = refl

step_runs :
    hid_step table_us (key_down 97 1 0) pressed (asleep (false ∷ true ∷ []))
    ≡ some (
      record pressed { pressed_keys = 97 ∷ 0 ∷ 0 ∷ 0 ∷ 0 ∷ 0 ∷ []; key_count = 1 },
      record (asleep []) { sent = (1, 2 ∷ 0 ∷ 4 ∷ 0 ∷ 0 ∷ 0 ∷ 0 ∷ 0 ∷ []) ∷ []; wakeups = 1 },
    )
unfolding hid_step table_us find_key barrier_key_to_hid add_modifier
step_runs = refl

enqueue_branches_example :
    (let (e, act') = enqueue list_fifo (queue_of full_queue) (mouse_down (pos 1)) in
      (e ≡ esp_ok) × (queued list_fifo act' ≡ full_queue ++ mouse_down (pos 1) ∷ [])
      ⊎ (e ≡ esp_err_timeout) × (queued list_fifo act' ≡ []) × (act_important_queue_depth ≤ 32))
enqueue_branches_example = enqueue_branches list_fifo (queue_of full_queue) (mouse_down (pos 1))

move_relative_lem_example :
    (let act' = actuator_move_relative true (queue_of []) (pos 30) (negsuc 6) in
      (act'.target_x ≡ min (0 + 30 - 0) (1920 - 1)) × (act'.target_y ≡ min (0 + 0 - 7) (1080 - 1)))
move_relative_lem_example =
    move_relative_lem true (queue_of []) (pos 30) (negsuc 6) (omega arith) (omega arith)
      (omega arith, omega arith) (omega arith, omega arith) (omega arith) (omega arith)
      (omega arith) (omega arith)

keyboard_report_bytes_example :
    (let keys : List ℕ = 97 ∷ 0xefe1 ∷ 0 ∷ 0 ∷ 0 ∷ 0 ∷ [] in
      let report = keyboard_report table_us keys 2 in
      (length report ≡ 8)
      × ((bit 1 (get_or report 0 0) ≡ 1)
          ↔ ((bit 1 (mask_to_tusb_modifier 2) ≡ 1) ⊎ HasUsage table_us keys (0xe0 + 1)))
      × (get_or report 1 0 ≡ 0)
      × (get_or report 2 0 ≡ (let u = usage_of table_us 97 in if ltb u 0xe0 then u else 0)))
keyboard_report_bytes_example =
    keyboard_report_bytes table_us (97 ∷ 0xefe1 ∷ 0 ∷ 0 ∷ 0 ∷ 0 ∷ []) 2 1 0 (inl refl) refl
      (omega arith)

hid_step_lem_example :
    (let act' = record (queue_of []) {
      pressed_keys = 97 ∷ 0 ∷ 0 ∷ 0 ∷ 0 ∷ 0 ∷ [];
      key_count = 1;
    } in
      IsState act' × (HeldBy act' 97 ↔ HeldAfter (key_down 97 1 0) (queue_of []) 97))
unfolding hid_step table_us find_key barrier_key_to_hid add_modifier
hid_step_lem_example =
    hid_step_lem table_us (key_down 97 1 0) (queue_of [])
      (record (queue_of []) { pressed_keys = 97 ∷ 0 ∷ 0 ∷ 0 ∷ 0 ∷ 0 ∷ []; key_count = 1 })
      (asleep (true ∷ []))
      (record (asleep []) { sent = (1, 2 ∷ 0 ∷ 4 ∷ 0 ∷ 0 ∷ 0 ∷ 0 ∷ 0 ∷ []) ∷ []; wakeups = 1 }) 97
      (IsState-init {Q = List Cmd} [] 1920 1080) refl

hid_step_completes_example :
    (act' : Actuator (List Cmd)) × (u' : Usb) × (hid_step table_us leave pressed
        (asleep (false ∷ true ∷ true ∷ []))
      ≡ some (act', u'))
hid_step_completes_example =
    hid_step_completes table_us leave pressed (asleep (false ∷ true ∷ true ∷ [])) (omega arith)

leave_reports_example :
    (act' : Actuator (List Cmd)) × (u' : Usb) × (hid_step table_us leave pressed
        (asleep (false ∷ true ∷ false ∷ []))
      ≡ some (act', u'))
    × (act'.mouse_buttons ≡ 0)
    × (act'.last_sent_buttons ≡ 1)
    × (u'.sent ≡ (df_hid_keyboard, replicate 8 0) ∷ [])
leave_reports_example =
    leave_reports table_us 1 false [] pressed (asleep (false ∷ true ∷ false ∷ [])) refl refl

Reach-IsState_example : IsState (actuator_queue_key_down list_fifo 50 (queue_of []) 97 0 1).1
Reach-IsState_example =
    Reach-IsState list_fifo table_us (actuator_queue_key_down list_fifo 50 (queue_of []) 97 0 1).1
      (asleep []) (later (start [] 1920 1080 (asleep [])) (Step.key_down 50 97 0 1))
