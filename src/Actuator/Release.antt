-- ===== src/Actuator/Release.antt =====
-- What the host is told when the pointer leaves the screen: LEAVE of main/tusb/tusb_actuator.c.
use esp32_deskflow.Prelude.{
  ℕ, ◌≡◌, refl, List, [], ◌∷◌, ◌++◌, append_assoc, Bool, true, false, ◌&&◌, some, ◌==◌, eqb_ℤ,
  if◌then◌else◌, replicate, pos, arith,
}
use esp32_deskflow.Actuator.{leave, Actuator}
use esp32_deskflow.Actuator.Position.{to_hid_x, to_hid_y}
use esp32_deskflow.Actuator.Report.{mouse_report}
use esp32_deskflow.Actuator.Usb.{
  df_hid_keyboard, df_hid_abs_mouse, Usb, mouse_once, send_abs_mouse_once, note_sent, accept,
}
use esp32_deskflow.Actuator.Sending.{refused_then, send_kb_report_lem, delivered}
use esp32_deskflow.Actuator.Hid.{clear_keys, hid_step}

-- The mouse report without buttons at the target.
abbrev pub buttons_up : {Q : Type 0} → Actuator Q → List ℕ
buttons_up act = mouse_report 0 (to_hid_x act act.target_x) (to_hid_y act act.target_y) (pos 0)

module _ {Q : Type 0} where
  unsent :
      (act : Actuator Q)
      → (0 == act.last_sent_buttons) ≡ false
      → (to_hid_x act act.target_x == act.last_sent_hx
          && (to_hid_y act act.target_y == act.last_sent_hy)
          && (0 == act.last_sent_buttons)
          && eqb_ℤ (pos 0) (pos 0))
        ≡ false
  unsent act held = ground (arith, held)

  -- The state whose buttons LEAVE reports.
  abbrev cleared : Actuator Q → Actuator Q
  cleared act = record (clear_keys act) { mouse_buttons = 0; mouse_wheel = pos 0 }

  once_cleared :
      (act : Actuator Q) (u : Usb)
      → (0 == act.last_sent_buttons) ≡ false
      → send_abs_mouse_once (cleared act) u
        ≡ mouse_once
            (to_hid_x act act.target_x)
            (to_hid_y act act.target_y)
            (buttons_up act)
            u.replies
            (cleared act)
            u
  unfolding send_abs_mouse_once to_hid_x to_hid_y
  once_cleared act u held = rw (unsent act held, send_abs_mouse_once) refl

  -- On LEAVE with a button down at the host, the empty keyboard report is delivered however often
  -- TinyUSB refuses it first, but the report that lifts the buttons is offered once: it is
  -- delivered if the next answer is an acceptance, and otherwise nothing more is sent, although the
  -- recorded buttons are 0 in both cases.
  pub leave_reports :
      (table : List ℕ) (n : ℕ) (answer : Bool) (rest : List Bool) (act : Actuator Q) (u : Usb)
      → (0 == act.last_sent_buttons) ≡ false
      → u.replies ≡ refused_then n (answer ∷ rest)
      → (act' : Actuator Q) × (u' : Usb) × (hid_step table leave act u ≡ some (act', u'))
        × (act'.mouse_buttons ≡ 0)
        × (act'.last_sent_buttons ≡ (if answer then 0 else act.last_sent_buttons))
        × (u'.sent
            ≡ u.sent
              ++ (df_hid_keyboard, replicate 8 0)
                ∷ (if answer then (df_hid_abs_mouse, buttons_up act) ∷ [] else []))
  unfolding hid_step mouse_once to_hid_x to_hid_y
  leave_reports table n true rest act u held e =
      let after = delivered df_hid_keyboard (replicate 8 0) (true ∷ rest) u in
      (
        note_sent (to_hid_x act act.target_x) (to_hid_y act act.target_y) (cleared act),
        accept df_hid_abs_mouse (buttons_up act) rest after,
        rw (send_kb_report_lem n (replicate 8 0) (true ∷ rest) u e) (once_cleared act after held),
        refl,
        refl,
        append_assoc u.sent _ _,
      )
  leave_reports table n false rest act u held e =
      let after = delivered df_hid_keyboard (replicate 8 0) (false ∷ rest) u in
      (
        cleared act,
        record after { replies = rest },
        rw (send_kb_report_lem n (replicate 8 0) (false ∷ rest) u e) (once_cleared act after held),
        refl,
        refl,
        refl,
      )
