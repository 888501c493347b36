-- ===== src/Actuator/Conditions.antt =====
-- Properties of the state after a command, carried through the sending functions of
-- main/tusb/tusb_actuator.c, which wait on TinyUSB or give up.
use esp32_deskflow.Prelude.{
  ℕ, List, [], ◌∷◌, Bool, true, false, ◌&&◌, not, Option, some, none, ◌==◌, eqb_ℤ, if◌then◌else◌,
  pos,
}
use esp32_deskflow.Actuator.{Actuator}
use esp32_deskflow.Actuator.Position.{to_hid_x, to_hid_y}
use esp32_deskflow.Actuator.Usb.{
  Usb, tusb_set_pending_send, tusb_try_remote_wakeup, note_sent, mouse_loop, send_abs_mouse_retry,
  mouse_once, send_abs_mouse_once,
}
use esp32_deskflow.Actuator.Sending.{report_of}
use esp32_deskflow.Actuator.Hid.{◌>>=◌}

module _ {Q : Type 0} where
  -- The property holds of the state in the result, if there is one.
  unfoldable pub Post : (Actuator Q → Type 0) → Option (Actuator Q × Usb) → Type 0
  Post P none = Unit
  Post P (some (act, u)) = P act

  -- The property does not look at what `note_sent` sets.
  unfoldable pub Kept : (Actuator Q → Type 0) → Type 0
  Kept P = (hx hy : ℕ) (act : Actuator Q) → P act → P (note_sent hx hy act)

  pub mouse_loop-Post :
      (P : Actuator Q → Type 0) (hx hy : ℕ) (important : Bool) (report : List ℕ)
      (replies : List Bool) (act : Actuator Q) (u : Usb)
      → Kept P
      → P act
      → Post P (mouse_loop hx hy important report replies act u)
  unfolding Post Kept mouse_loop
  mouse_loop-Post P hx hy important report [] act u kept p = tt
  mouse_loop-Post P hx hy important report (true ∷ rest) act u kept p = kept hx hy act p
  mouse_loop-Post P hx hy true report (false ∷ rest) act u kept p =
      mouse_loop-Post P hx hy true report rest act u kept p
  mouse_loop-Post P hx hy false report (false ∷ rest) act u kept p = p

  pub retry-Post :
      (P : Actuator Q → Type 0) (act : Actuator Q) (u : Usb)
      → Kept P
      → P act
      → Post P (send_abs_mouse_retry act u)
  unfolding send_abs_mouse_retry
  retry-Post P act u kept p =
      let u' = tusb_try_remote_wakeup (tusb_set_pending_send true u) in
      mouse_loop-Post P (to_hid_x act act.target_x) (to_hid_y act act.target_y)
        (not (act.mouse_buttons == act.last_sent_buttons)) (report_of act) u'.replies act u' kept p

  pub mouse_once-Post :
      (P : Actuator Q → Type 0) (hx hy : ℕ) (report : List ℕ) (replies : List Bool)
      (act : Actuator Q) (u : Usb)
      → Kept P
      → P act
      → Post P (mouse_once hx hy report replies act u)
  unfolding Post Kept mouse_once
  mouse_once-Post P hx hy report [] act u kept p = tt
  mouse_once-Post P hx hy report (true ∷ rest) act u kept p = kept hx hy act p
  mouse_once-Post P hx hy report (false ∷ rest) act u kept p = p

  pub if-Post :
      (P : Actuator Q → Type 0) (b : Bool) (r s : Option (Actuator Q × Usb))
      → Post P r
      → Post P s
      → Post P (if b then r else s)
  if-Post P true r s p q = p
  if-Post P false r s p q = q

  pub once-Post :
      (P : Actuator Q → Type 0) (act : Actuator Q) (u : Usb)
      → Kept P
      → P act
      → Post P (send_abs_mouse_once act u)
  unfolding send_abs_mouse_once Post
  once-Post P act u kept p =
      let hx = to_hid_x act act.target_x in
      let hy = to_hid_y act act.target_y in
      let sent = mouse_once hx hy (report_of act) u.replies act u in
      if-Post P
        (hx == act.last_sent_hx
          && (hy == act.last_sent_hy)
          && (act.mouse_buttons == act.last_sent_buttons)
          && eqb_ℤ act.mouse_wheel (pos 0))
        (some (act, u)) sent p (mouse_once-Post P hx hy (report_of act) u.replies act u kept p)

  -- Going on after a keyboard report, and after a mouse report.
  pub kb-Post :
      (P : Actuator Q → Type 0) (m : Option Usb) (f : Usb → Option (Actuator Q × Usb))
      → ((u : Usb) → Post P (f u))
      → Post P (m >>= f)
  unfolding Post
  kb-Post P none f h = tt
  kb-Post P (some u) f h = h u

  pub next-Post :
      (P R : Actuator Q → Type 0) (m : Option (Actuator Q × Usb))
      (f : Actuator Q × Usb → Option (Actuator Q × Usb))
      → Post P m
      → ((act : Actuator Q) (u : Usb) → P act → Post R (f (act, u)))
      → Post R (m >>= f)
  unfolding Post
  next-Post P R none f p h = tt
  next-Post P R (some (act, u)) f p h = h act u p

  pub Post-map :
      (P R : Actuator Q → Type 0) (r : Option (Actuator Q × Usb))
      → ((act : Actuator Q) → P act → R act)
      → Post P r
      → Post R r
  unfolding Post
  Post-map P R none f p = tt
  Post-map P R (some (act, u)) f p = f act p
