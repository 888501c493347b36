-- ===== src/Actuator/Usb.antt =====
-- main/tusb/tusb_device.c: whether the host sleeps and a report waits; and the three functions of
-- main/tusb/tusb_actuator.c that hand reports to TinyUSB.
use esp32_deskflow.Prelude.{
  ℕ, ◌+◌, List, [], ◌∷◌, ◌++◌, Bool, true, false, ◌&&◌, not, Option, some, none, ◌==◌, eqb_ℤ,
  if◌then◌else◌, pos,
}
use esp32_deskflow.Actuator.{Actuator}
use esp32_deskflow.Actuator.Position.{to_hid_x, to_hid_y}
use esp32_deskflow.Actuator.Report.{mouse_report}

abbrev pub df_hid_keyboard : ℕ
df_hid_keyboard = 1

abbrev pub df_hid_abs_mouse : ℕ
df_hid_abs_mouse = 4

-- The globals of tusb_device.c, and what passes between the program and TinyUSB: `replies` are the
-- answers that the coming calls of `tud_hid_report` get, `sent` the reports that it has accepted,
-- by identifier, and `wakeups` counts the calls of `tud_remote_wakeup`.
pub record Usb : Type 0 where
  pub suspended : Bool
  pub remote_wakeup_en : Bool
  pub pending_send : Bool
  pub replies : List Bool
  pub sent : List (ℕ × List ℕ)
  pub wakeups : ℕ

unfoldable pub tusb_set_pending_send : Bool → Usb → Usb
tusb_set_pending_send pending u = record u { pending_send = pending }

-- The result of `tud_remote_wakeup`, which no caller looks at, is left out.
unfoldable pub tusb_try_remote_wakeup : Usb → Usb
tusb_try_remote_wakeup u =
    if u.suspended && u.remote_wakeup_en && u.pending_send
    then record u { wakeups = u.wakeups + 1 }
    else u

unfoldable pub tud_suspend_cb : Bool → Usb → Usb
tud_suspend_cb enabled u =
    let u' = record u { suspended = true; remote_wakeup_en = enabled } in
    if u.pending_send && enabled then record u' { wakeups = u.wakeups + 1 } else u'

unfoldable pub tud_resume_cb : Usb → Usb
tud_resume_cb u = record u { suspended = false }

unfoldable pub tusb_device_deinit : Usb → Usb
tusb_device_deinit u = record u { suspended = false }

-- A call of `tud_hid_report` that is accepted, with the answers that then remain.
abbrev pub accept : ℕ → List ℕ → List Bool → Usb → Usb
accept id report rest u = record u { replies = rest; sent = u.sent ++ (id, report) ∷ [] }

-- The loop of `send_kb_report`; `none` while no answer has come and the task waits.
unfoldable pub kb_loop : List ℕ → List Bool → Usb → Option Usb
kb_loop report [] u = none
kb_loop report (true ∷ rest) u = some (accept df_hid_keyboard report rest u)
kb_loop report (false ∷ rest) u = kb_loop report rest u

unfoldable pub send_kb_report : List ℕ → Usb → Option Usb
unfolding kb_loop tusb_set_pending_send tusb_try_remote_wakeup
send_kb_report report u =
    let u' = tusb_try_remote_wakeup (tusb_set_pending_send true u) in
    elim (kb_loop report u'.replies u') [
      | none ↦ none
      | some u'' ↦ some (tusb_set_pending_send false u'')
    ]

module _ {Q : Type 0} where
  -- The fields set after an accepted mouse report.
  abbrev pub note_sent : ℕ → ℕ → Actuator Q → Actuator Q
  note_sent hx hy act = record act {
    last_sent_hx = hx;
    last_sent_hy = hy;
    last_sent_buttons = act.mouse_buttons;
    mouse_wheel = pos 0;
  }

  -- The loop of `send_abs_mouse_retry`.
  unfoldable pub mouse_loop :
      ℕ → ℕ → Bool → List ℕ → List Bool → Actuator Q → Usb → Option (Actuator Q × Usb)
  mouse_loop hx hy important report [] act u = none
  mouse_loop hx hy important report (true ∷ rest) act u =
      some (
        note_sent hx hy act,
        record (accept df_hid_abs_mouse report rest u) { pending_send = false },
      )
  mouse_loop hx hy important report (false ∷ rest) act u =
      let again = mouse_loop hx hy important report rest act u in
      if not important then some (act, record u { replies = rest; pending_send = false }) else again

  unfoldable pub send_abs_mouse_retry : Actuator Q → Usb → Option (Actuator Q × Usb)
  unfolding to_hid_x to_hid_y mouse_loop mouse_report tusb_set_pending_send tusb_try_remote_wakeup
  send_abs_mouse_retry act u =
      let hx = to_hid_x act act.target_x in
      let hy = to_hid_y act act.target_y in
      let important = not (act.mouse_buttons == act.last_sent_buttons) in
      let report = mouse_report act.mouse_buttons hx hy act.mouse_wheel in
      let u' = tusb_try_remote_wakeup (tusb_set_pending_send true u) in
      mouse_loop hx hy important report u'.replies act u'

  -- The one call of `send_abs_mouse_once`, with the answers at hand.
  unfoldable pub mouse_once :
      ℕ → ℕ → List ℕ → List Bool → Actuator Q → Usb → Option (Actuator Q × Usb)
  mouse_once hx hy report [] act u = none
  mouse_once hx hy report (true ∷ rest) act u =
      some (note_sent hx hy act, accept df_hid_abs_mouse report rest u)
  mouse_once hx hy report (false ∷ rest) act u = some (act, record u { replies = rest })

  unfoldable pub send_abs_mouse_once : Actuator Q → Usb → Option (Actuator Q × Usb)
  unfolding to_hid_x to_hid_y mouse_once mouse_report
  send_abs_mouse_once act u =
      let hx = to_hid_x act act.target_x in
      let hy = to_hid_y act act.target_y in
      if hx == act.last_sent_hx
        && (hy == act.last_sent_hy)
        && (act.mouse_buttons == act.last_sent_buttons)
        && eqb_ℤ act.mouse_wheel (pos 0)
      then some (act, u)
      else mouse_once hx hy (mouse_report act.mouse_buttons hx hy act.mouse_wheel) u.replies act u
