-- ===== src/Actuator/Hid.antt =====
-- hid_task of main/tusb/tusb_actuator.c: what the task does with a command, and a round of its loop.
use esp32_deskflow.Prelude.{
  ℕ, ◌+◌, ◌-◌, ◌^◌, List, ◌∷◌, ℤ, pos, negsuc, ltb_ℤ, eqb_ℤ, Bool, ◌&&◌, Option, some, none, ltb,
  ◌==◌, if◌then◌else◌, bit_or, bit_and, replicate, u16,
}
use esp32_deskflow.Keycodes.{mask_to_tusb_modifier}
use esp32_deskflow.Actuator.{
  Cmd, key_down, key_up, key_repeat, mouse_down, mouse_up, mouse_wheel, enter, leave, jiggle,
  connected, disconnected, set_screen_size, set_scaling, CmdQueue, Actuator,
}
use esp32_deskflow.Actuator.Keys.{press_key, release_key}
use esp32_deskflow.Actuator.Report.{keyboard_report}
use esp32_deskflow.Actuator.Usb.{Usb, send_kb_report, send_abs_mouse_retry, send_abs_mouse_once}

unfoldable pub barrier_button_to_hid : ℤ → ℕ
barrier_button_to_hid button =
    if eqb_ℤ button (pos 1)
    then 0x01
    else if eqb_ℤ button (pos 2)
    then 0x04
    else if eqb_ℤ button (pos 3)
    then 0x02
    else 0

-- `dy` limited to -3 .. 3.
unfoldable pub dampen : ℤ → ℤ
dampen dy = if ltb_ℤ (pos 3) dy then pos 3 else if ltb_ℤ dy (negsuc 2) then negsuc 2 else dy

infixl 5 ◌>>=◌
abbrev pub ◌>>=◌ : {A B : Type 0} → Option A → (A → Option B) → Option B
none >>= f = none
some a >>= f = f a

module _ {Q : Type 0} where
  -- `key_count = 0` and the `memset` of `pressed_keys`.
  abbrev pub clear_keys : Actuator Q → Actuator Q
  clear_keys act = record act { pressed_keys = replicate 6 0; key_count = 0 }

  -- The keyboard report of the two key commands, after the array has changed.
  unfoldable pub send_keys : List ℕ → ℕ → List ℕ × ℕ → Actuator Q → Usb → Option (Actuator Q × Usb)
  unfolding send_kb_report keyboard_report
  send_keys table mask pressed act u = do
    u' ← send_kb_report (keyboard_report table pressed.0 mask) u
    some (record act { pressed_keys = pressed.0; key_count = pressed.1 }, u')

  abbrev pub at_target : ℕ → ℕ → Actuator Q → Actuator Q
  at_target x y act = record act { target_x = x; target_y = y }

  -- `(orig_x + 1 < screen_width) ? orig_x + 1 : orig_x - 1` in 16 bits.
  abbrev pub jiggle_x : Actuator Q → ℕ
  jiggle_x act =
      if ltb (act.target_x + 1) act.screen_width
      then act.target_x + 1
      else u16 (act.target_x + 2 ^ 16 - 1)

  -- The `switch` of `hid_task`, with the layout table that is set; `none` while the task waits for
  -- TinyUSB. The network task's writes during a wait are left out.
  unfoldable pub hid_step : List ℕ → Cmd → Actuator Q → Usb → Option (Actuator Q × Usb)
  unfolding send_keys press_key release_key send_abs_mouse_retry send_abs_mouse_once send_kb_report
      barrier_button_to_hid dampen mask_to_tusb_modifier
  hid_step table (key_down key mask button) act u =
      send_keys table mask (press_key act.pressed_keys act.key_count key) act u
  hid_step table (key_up key mask button) act u =
      send_keys table mask (release_key act.pressed_keys act.key_count key) act u
  hid_step table (key_repeat key mask button count) act u = some (act, u)
  hid_step table (mouse_down id) act u =
      send_abs_mouse_retry
        (record act { mouse_buttons = bit_or act.mouse_buttons (barrier_button_to_hid id) }) u
  hid_step table (mouse_up id) act u =
      send_abs_mouse_retry
        (record act { mouse_buttons = bit_and act.mouse_buttons (255 - barrier_button_to_hid id) })
        u
  hid_step table (mouse_wheel dx dy) act u =
      send_abs_mouse_retry (record act { mouse_wheel = dampen dy }) u
  hid_step table (enter x y mask) act u = do
    (act', u') ← send_abs_mouse_once (at_target x y act) u
    if mask == 0
        then some (act', u')
        else (send_kb_report (mask_to_tusb_modifier mask ∷ replicate 7 0) u' >>= λ u''.
            some (act', u''))
  hid_step table leave act u = do
    u' ← send_kb_report (replicate 8 0) u
    send_abs_mouse_once (record (clear_keys act) { mouse_buttons = 0; mouse_wheel = pos 0 }) u'
  hid_step table jiggle act u = do
    (act', u') ← send_abs_mouse_once (at_target (jiggle_x act) act.target_y act) u
    send_abs_mouse_once (at_target act.target_x act.target_y act') u'
  hid_step table connected act u = some (act, u)
  hid_step table disconnected act u =
      some (record (clear_keys act) { mouse_buttons = 0; mouse_wheel = pos 0 }, u)
  hid_step table (set_screen_size w h) act u =
      some (record act { screen_width = w; screen_height = h }, u)
  hid_step table (set_scaling scaling) act u = some (record act { scaling = scaling }, u)

-- What a round finds out: whether the compare-and-swap from 1 succeeds when the value is 1, and the
-- two answers of `tud_mounted`.
pub record Round : Type 0 where
  pub cas_ok : Bool
  pub mounted_before : Bool
  pub mounted_after : Bool

module _ (fifo : CmdQueue) where
  open fifo use {Handle, receive}

  -- The first part of a round: pending movement.
  unfoldable pub hid_movement : Round → Actuator Handle → Usb → Option (Actuator Handle × Usb)
  unfolding send_abs_mouse_once
  hid_movement r act u =
      if (act.movement_pending == 1) && r.cas_ok
      then (let act' = record act { movement_pending = 0 } in
          if r.mounted_before then send_abs_mouse_once act' u else some (act', u))
      else some (act, u)

  -- The rest of the round: one command, if there is one; without a mounted device it is dropped.
  unfoldable pub hid_command :
      List ℕ → Round → Actuator Handle → Usb → Option (Actuator Handle × Usb)
  unfolding hid_step
  hid_command table r act u =
      let act' = record act { cmd_queue = (receive act.cmd_queue).1 } in
      elim ((receive act.cmd_queue).0) [
        | none ↦ some (act', u)
        | some cmd ↦ if r.mounted_after then hid_step table cmd act' u else some (act', u)
      ]

  unfoldable pub hid_round : List ℕ → Round → Actuator Handle → Usb → Option (Actuator Handle × Usb)
  unfolding hid_movement hid_command
  hid_round table r act u = do (act', u') ← hid_movement r act u; hid_command table r act' u'
