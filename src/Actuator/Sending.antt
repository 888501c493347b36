-- ===== src/Actuator/Sending.antt =====
-- What the sending functions of main/tusb/tusb_actuator.c do for every sequence of answers from
-- TinyUSB.
use esp32_deskflow.Prelude.{
  ℕ, zero, suc, ◌+◌, ◌≡◌, refl, arith, List, [], ◌∷◌, ◌++◌, Bool, true, false, ◌&&◌, some, ◌==◌,
  if◌then◌else◌, replicate,
}
use esp32_deskflow.Actuator.{Actuator}
use esp32_deskflow.Actuator.Position.{to_hid_x, to_hid_y}
use esp32_deskflow.Actuator.Report.{mouse_report}
use esp32_deskflow.Actuator.Usb.{
  df_hid_keyboard, df_hid_abs_mouse, Usb, tusb_set_pending_send, tusb_try_remote_wakeup, accept,
  kb_loop, send_kb_report, note_sent, mouse_loop, send_abs_mouse_retry,
}

-- `n` refusals, and then an acceptance.
abbrev pub refused_then : ℕ → List Bool → List Bool
refused_then n rest = replicate n false ++ true ∷ rest

-- The calls of `tud_remote_wakeup` after a report is announced.
abbrev pub wakeups_after : Usb → ℕ
wakeups_after u = if u.suspended && u.remote_wakeup_en then u.wakeups + 1 else u.wakeups

-- The state after one accepted report, with no report waiting.
abbrev pub delivered : ℕ → List ℕ → List Bool → Usb → Usb
delivered id report rest u = record u {
  pending_send = false;
  replies = rest;
  sent = u.sent ++ (id, report) ∷ [];
  wakeups = wakeups_after u;
}

pub woken :
    (u : Usb)
    → tusb_try_remote_wakeup (tusb_set_pending_send true u)
      ≡ record u { pending_send = true; wakeups = wakeups_after u }
unfolding tusb_try_remote_wakeup tusb_set_pending_send
woken u = ground arith

kb_loop_lem :
    (n : ℕ) (report : List ℕ) (rest : List Bool) (u : Usb)
    → kb_loop report (refused_then n rest) u ≡ some (accept df_hid_keyboard report rest u)
unfolding kb_loop
kb_loop_lem zero report rest u = refl
kb_loop_lem (suc n) report rest u = kb_loop_lem n report rest u

-- However often TinyUSB refuses first, send_kb_report returns with the report delivered once, no
-- report waiting, and one wake-up call if the host sleeps and allows it.
pub send_kb_report_lem :
    (n : ℕ) (report : List ℕ) (rest : List Bool) (u : Usb)
    → u.replies ≡ refused_then n rest
    → send_kb_report report u ≡ some (delivered df_hid_keyboard report rest u)
unfolding send_kb_report
send_kb_report_lem n report rest u e =
    let u' = record u {
      pending_send = true;
      replies = refused_then n rest;
      wakeups = wakeups_after u;
    } in
    rw (woken u, send_kb_report)
      (rw e (rw (kb_loop_lem n report rest u') (unfold tusb_set_pending_send in refl)))

module _ {Q : Type 0} where
  mouse_loop_lem :
      (n hx hy : ℕ) (report : List ℕ) (rest : List Bool) (act : Actuator Q) (u : Usb)
      → mouse_loop hx hy true report (refused_then n rest) act u
        ≡ some (
          note_sent hx hy act,
          record (accept df_hid_abs_mouse report rest u) { pending_send = false },
        )
  unfolding mouse_loop
  mouse_loop_lem zero hx hy report rest act u = refl
  mouse_loop_lem (suc n) hx hy report rest act u = mouse_loop_lem n hx hy report rest act u

  -- The report that describes the state.
  abbrev pub report_of : Actuator Q → List ℕ
  report_of act =
      mouse_report act.mouse_buttons (to_hid_x act act.target_x) (to_hid_y act act.target_y)
        act.mouse_wheel

  -- A change of the buttons is delivered once however often TinyUSB refuses first, with the target
  -- as position, and is then noted as sent; the wheel movement is used up by it.
  pub button_change_delivered :
      (n : ℕ) (rest : List Bool) (act : Actuator Q) (u : Usb)
      → (act.mouse_buttons == act.last_sent_buttons) ≡ false
      → u.replies ≡ refused_then n rest
      → send_abs_mouse_retry act u
        ≡ some (
          note_sent (to_hid_x act act.target_x) (to_hid_y act act.target_y) act,
          delivered df_hid_abs_mouse (report_of act) rest u,
        )
  unfolding send_abs_mouse_retry
  button_change_delivered n rest act u changed e =
      let u' = record u {
        pending_send = true;
        replies = refused_then n rest;
        wakeups = wakeups_after u;
      } in
      rw (woken u, send_abs_mouse_retry)
        (rw e (
          rw (changed, send_abs_mouse_retry)
            (mouse_loop_lem n (to_hid_x act act.target_x) (to_hid_y act act.target_y)
              (report_of act) rest act u')))

  -- Without a change of the buttons one refusal ends the attempt: the report is not sent, and
  -- position and wheel stay as they are for the next one.
  pub refused_once_kept :
      (rest : List Bool) (act : Actuator Q) (u : Usb)
      → (act.mouse_buttons == act.last_sent_buttons) ≡ true
      → u.replies ≡ false ∷ rest
      → send_abs_mouse_retry act u
        ≡ some (act, record u { pending_send = false; replies = rest; wakeups = wakeups_after u })
  unfolding send_abs_mouse_retry mouse_loop
  refused_once_kept rest act u same e =
      rw (woken u, send_abs_mouse_retry) (rw e (rw (same, send_abs_mouse_retry) refl))
