-- ===== src/Actuator/Progress.antt =====
-- hid_task of main/tusb/tusb_actuator.c gets through every command, if TinyUSB accepts reports.
use esp32_deskflow.Prelude.{
  ◌-◌, ℕ, suc, ◌≤◌, ◌≡◌, refl, arith, List, [], ◌∷◌, Bool, true, false, ◌&&◌, not, Option, some,
  none, ◌==◌, eqb_ℤ, if◌then◌else◌, replicate, pos, bit_or, bit_and,
}
use esp32_deskflow.Keycodes.{mask_to_tusb_modifier}
use esp32_deskflow.Actuator.{
  Cmd, key_down, key_up, key_repeat, mouse_down, mouse_up, mouse_wheel, enter, leave, jiggle,
  connected, disconnected, set_screen_size, set_scaling, Actuator,
}
use esp32_deskflow.Actuator.Keys.{press_key, release_key}
use esp32_deskflow.Actuator.Position.{to_hid_x, to_hid_y}
use esp32_deskflow.Actuator.Report.{keyboard_report}
use esp32_deskflow.Actuator.Usb.{
  Usb, tusb_set_pending_send, kb_loop, send_kb_report, mouse_loop, send_abs_mouse_retry, mouse_once,
  send_abs_mouse_once,
}
use esp32_deskflow.Actuator.Sending.{woken, wakeups_after, report_of}
use esp32_deskflow.Actuator.Hid.{
  ◌>>=◌, barrier_button_to_hid, dampen, at_target, jiggle_x, clear_keys, send_keys, hid_step,
}

-- The acceptances among the answers to come.
abbrev pub acceptances : List Bool → ℕ
acceptances [] = 0
acceptances (true ∷ rs) = suc (acceptances rs)
acceptances (false ∷ rs) = acceptances rs

-- A result with `n` acceptances left.
unfoldable KbLeft : ℕ → Option Usb → Type 0
KbLeft n none = ⊥
KbLeft n (some u) = n ≤ acceptances u.replies

kb_loop_left :
    (n : ℕ) (report : List ℕ) (replies : List Bool) (u : Usb)
    → suc n ≤ acceptances replies
    → KbLeft n (kb_loop report replies u)
unfolding KbLeft kb_loop
kb_loop_left n report [] u h = omega arith
kb_loop_left n report (true ∷ rest) u h = omega arith
kb_loop_left n report (false ∷ rest) u h = kb_loop_left n report rest u h

cleared_left :
    (n : ℕ) (m : Option Usb)
    → KbLeft n m
    → KbLeft n (elim m [ none ↦ none | some u ↦ some (tusb_set_pending_send false u) ])
unfolding KbLeft tusb_set_pending_send
cleared_left n none h = h
cleared_left n (some u) h = h

kb_left :
    (n : ℕ) (report : List ℕ) (u : Usb)
    → suc n ≤ acceptances u.replies
    → KbLeft n (send_kb_report report u)
unfolding send_kb_report
kb_left n report u h =
    let u' = record u { pending_send = true; wakeups = wakeups_after u } in
    rw (woken u, send_kb_report)
      (cleared_left n (kb_loop report u.replies u') (kb_loop_left n report u.replies u' h))

module _ {Q : Type 0} where
  unfoldable Left : ℕ → Option (Actuator Q × Usb) → Type 0
  Left n none = ⊥
  Left n (some (act, u)) = n ≤ acceptances u.replies

  mouse_loop-Left :
      (n hx hy : ℕ) (important : Bool) (report : List ℕ) (replies : List Bool) (act : Actuator Q)
      (u : Usb)
      → suc n ≤ acceptances replies
      → Left n (mouse_loop hx hy important report replies act u)
  unfolding Left mouse_loop
  mouse_loop-Left n hx hy important report [] act u h = omega arith
  mouse_loop-Left n hx hy important report (true ∷ rest) act u h = omega arith
  mouse_loop-Left n hx hy true report (false ∷ rest) act u h =
      mouse_loop-Left n hx hy true report rest act u h
  mouse_loop-Left n hx hy false report (false ∷ rest) act u h = omega arith

  retry-Left :
      (n : ℕ) (act : Actuator Q) (u : Usb)
      → suc n ≤ acceptances u.replies
      → Left n (send_abs_mouse_retry act u)
  unfolding send_abs_mouse_retry
  retry-Left n act u h =
      rw (woken u, send_abs_mouse_retry)
        (mouse_loop-Left n (to_hid_x act act.target_x) (to_hid_y act act.target_y)
          (not (act.mouse_buttons == act.last_sent_buttons)) (report_of act) u.replies act
          (record u { pending_send = true; wakeups = wakeups_after u }) h)

  mouse_once-Left :
      (n hx hy : ℕ) (report : List ℕ) (replies : List Bool) (act : Actuator Q) (u : Usb)
      → suc n ≤ acceptances replies
      → Left n (mouse_once hx hy report replies act u)
  unfolding Left mouse_once
  mouse_once-Left n hx hy report [] act u h = omega arith
  mouse_once-Left n hx hy report (true ∷ rest) act u h = omega arith
  mouse_once-Left n hx hy report (false ∷ rest) act u h = omega arith

  if-Left :
      (n : ℕ) (b : Bool) (r s : Option (Actuator Q × Usb))
      → Left n r
      → Left n s
      → Left n (if b then r else s)
  if-Left n true r s p q = p
  if-Left n false r s p q = q

  once-Left :
      (n : ℕ) (act : Actuator Q) (u : Usb)
      → suc n ≤ acceptances u.replies
      → Left n (send_abs_mouse_once act u)
  unfolding send_abs_mouse_once Left
  once-Left n act u h =
      let hx = to_hid_x act act.target_x in
      let hy = to_hid_y act act.target_y in
      let sent = mouse_once hx hy (report_of act) u.replies act u in
      if-Left n
        (hx == act.last_sent_hx
          && (hy == act.last_sent_hy)
          && (act.mouse_buttons == act.last_sent_buttons)
          && eqb_ℤ act.mouse_wheel (pos 0))
        (some (act, u)) sent (omega arith)
        (mouse_once-Left n hx hy (report_of act) u.replies act u h)

  kb-Left :
      (n k : ℕ) (m : Option Usb) (f : Usb → Option (Actuator Q × Usb))
      → KbLeft n m
      → ((u : Usb) → n ≤ acceptances u.replies → Left k (f u))
      → Left k (m >>= f)
  unfolding Left KbLeft
  kb-Left n k none f p h = absurd p
  kb-Left n k (some u) f p h = h u p

  next-Left :
      (n k : ℕ) (m : Option (Actuator Q × Usb)) (f : Actuator Q × Usb → Option (Actuator Q × Usb))
      → Left n m
      → ((act : Actuator Q) (u : Usb) → n ≤ acceptances u.replies → Left k (f (act, u)))
      → Left k (m >>= f)
  unfolding Left
  next-Left n k none f p h = absurd p
  next-Left n k (some (act, u)) f p h = h act u p

  send_keys-Left :
      (table : List ℕ) (mask : ℕ) (pressed : List ℕ × ℕ) (act : Actuator Q) (u : Usb)
      → 1 ≤ acceptances u.replies
      → Left 0 (send_keys table mask pressed act u)
  unfolding send_keys Left
  send_keys-Left table mask pressed act u h =
      kb-Left 0 0 (send_kb_report (keyboard_report table pressed.0 mask) u)
        (λ u'. some (record act { pressed_keys = pressed.0; key_count = pressed.1 }, u'))
        (kb_left 0 (keyboard_report table pressed.0 mask) u h) (λ u' _. omega arith)

  hid_step-Left :
      (table : List ℕ) (cmd : Cmd) (act : Actuator Q) (u : Usb)
      → 2 ≤ acceptances u.replies
      → Left 0 (hid_step table cmd act u)
  unfolding hid_step Left
  hid_step-Left table (key_down key mask button) act u h =
      send_keys-Left table mask (press_key act.pressed_keys act.key_count key) act u (omega arith)
  hid_step-Left table (key_up key mask button) act u h =
      send_keys-Left table mask (release_key act.pressed_keys act.key_count key) act u (omega arith)
  hid_step-Left table (key_repeat key mask button count) act u h = omega arith
  hid_step-Left table (mouse_down id) act u h =
      retry-Left 0
        (record act { mouse_buttons = bit_or act.mouse_buttons (barrier_button_to_hid id) }) u
        (omega arith)
  hid_step-Left table (mouse_up id) act u h =
      retry-Left 0
        (record act { mouse_buttons = bit_and act.mouse_buttons (255 - barrier_button_to_hid id) })
        u (omega arith)
  hid_step-Left table (mouse_wheel dx dy) act u h =
      retry-Left 0 (record act { mouse_wheel = dampen dy }) u (omega arith)
  hid_step-Left table (enter x y mask) act u h =
      let report = mask_to_tusb_modifier mask ∷ replicate 7 0 in
      next-Left 1 0 (send_abs_mouse_once (at_target x y act) u)
        (λ r. if mask == 0 then some r else (send_kb_report report r.1 >>= λ u''. some (r.0, u'')))
        (once-Left 1 (at_target x y act) u h)
        (λ act' u' left.
          if-Left 0 (mask == 0) (some (act', u'))
            (send_kb_report report u' >>= λ u''. some (act', u'')) (omega arith)
            (kb-Left 0 0 (send_kb_report report u') (λ u''. some (act', u''))
              (kb_left 0 report u' left) (λ u'' _. omega arith)))
  hid_step-Left table leave act u h =
      let cleared = record (clear_keys act) { mouse_buttons = 0; mouse_wheel = pos 0 } in
      kb-Left 1 0 (send_kb_report (replicate 8 0) u) (λ u'. send_abs_mouse_once cleared u')
        (kb_left 1 (replicate 8 0) u h) (λ u' left. once-Left 0 cleared u' left)
  hid_step-Left table jiggle act u h =
      next-Left 1 0 (send_abs_mouse_once (at_target (jiggle_x act) act.target_y act) u)
        (λ r. send_abs_mouse_once (at_target act.target_x act.target_y r.0) r.1)
        (once-Left 1 (at_target (jiggle_x act) act.target_y act) u h)
        (λ act' u' left. once-Left 0 (at_target act.target_x act.target_y act') u' left)
  hid_step-Left table connected act u h = omega arith
  hid_step-Left table disconnected act u h = omega arith
  hid_step-Left table (set_screen_size width height) act u h = omega arith
  hid_step-Left table (set_scaling scaling) act u h = omega arith

  Left-some :
      (r : Option (Actuator Q × Usb))
      → Left 0 r
      → (act' : Actuator Q) × (u' : Usb) × (r ≡ some (act', u'))
  unfolding Left
  Left-some none h = absurd h
  Left-some (some (act', u')) h = (act', u', refl)

  -- If TinyUSB accepts two of the coming reports, however many it refuses in between, then every
  -- command completes.
  pub hid_step_completes :
      (table : List ℕ) (cmd : Cmd) (act : Actuator Q) (u : Usb)
      → 2 ≤ acceptances u.replies
      → (act' : Actuator Q) × (u' : Usb) × (hid_step table cmd act u ≡ some (act', u'))
  hid_step_completes table cmd act u h =
      Left-some (hid_step table cmd act u) (hid_step-Left table cmd act u h)
