-- ===== src/Actuator/Steps.antt =====
-- What the commands of hid_task in main/tusb/tusb_actuator.c do to keys, buttons and wheel.
use esp32_deskflow.Prelude.{
  ℕ, ◌-◌, ◌<◌, ◌≡◌, ◌≢◌, ◌↔◌, ◌⊎◌, subst, arith, List, ◌∷◌, some, ◌==◌, if◌then◌else◌, replicate,
  pos, negsuc, ℤ, ◌≤ℤ◌, bit_or, bit_and, or_digit, and_digit, or-zero, zero_and, ◌/◌,
}
use esp32_deskflow.Keycodes.{mask_to_tusb_modifier}
use esp32_deskflow.Actuator.{
  Cmd, key_down, key_up, key_repeat, mouse_down, mouse_up, mouse_wheel, enter, leave, jiggle,
  connected, disconnected, set_screen_size, set_scaling, Actuator, tusb_actuator_init,
}
use esp32_deskflow.Actuator.Keys.{
  press_key, release_key, IsKeys, Held, press_key_lem, release_key_lem, none-IsKeys,
}
use esp32_deskflow.Actuator.Report.{keyboard_report}
use esp32_deskflow.Actuator.Usb.{Usb, send_kb_report, send_abs_mouse_once}
use esp32_deskflow.Actuator.Conditions.{
  Post, Kept, retry-Post, if-Post, once-Post, kb-Post, next-Post, Post-map,
}
use esp32_deskflow.Actuator.Hid.{
  ◌>>=◌, barrier_button_to_hid, dampen, at_target, jiggle_x, clear_keys, send_keys, hid_step,
}

-- Well-formed keys, three button bits, and a wheel of -3 to 3.
pub record IsInput (keys : List ℕ) (count buttons : ℕ) (wheel : ℤ) : Type 0 where
  pub keys_ok : IsKeys keys count
  pub buttons_ok : buttons < 8
  pub wheel_low : negsuc 2 ≤ℤ wheel
  pub wheel_high : wheel ≤ℤ pos 3

or_lt : (a b : ℕ) → a < 8 → b < 8 → bit_or a b < 8
or_lt a b h i =
    ground
      (arith, or_digit a b, or_digit (a / 2) (b / 2), or_digit (a / 4) (b / 4), or-zero (a / 8))

and_lt : (a b : ℕ) → a < 8 → bit_and a b < 8
and_lt a b h =
    ground
      (arith, and_digit a b, and_digit (a / 2) (b / 2), and_digit (a / 4) (b / 4), zero_and (b / 8))

button_lt : (id : ℤ) → barrier_button_to_hid id < 8
unfolding barrier_button_to_hid
button_lt id = ground arith

released : IsInput (replicate 6 0) 0 0 (pos 0)
released = record {
  keys_ok = none-IsKeys;
  buttons_ok = omega arith;
  wheel_low = omega arith;
  wheel_high = omega arith;
}

released_none : (k : ℕ) → Held (replicate 6 0) 0 k ↔ ⊥
released_none k = (λ (i, h, e). omega arith, λ h. absurd h)

module _ {Q : Type 0} where
  abbrev pub IsState : Actuator Q → Type 0
  IsState act = IsInput act.pressed_keys act.key_count act.mouse_buttons act.mouse_wheel

  abbrev pub HeldBy : Actuator Q → ℕ → Type 0
  HeldBy act k = Held act.pressed_keys act.key_count k

  -- What each command makes of the set of held keys.
  unfoldable pub HeldAfter : Cmd → Actuator Q → ℕ → Type 0
  HeldAfter (key_down key mask button) act k = HeldBy act k ⊎ (act.key_count < 6) × (k ≡ key)
  HeldAfter (key_up key mask button) act k = HeldBy act key × HeldBy act k × (k ≢ key)
  HeldAfter leave act k = ⊥
  HeldAfter disconnected act k = ⊥
  HeldAfter _ act k = HeldBy act k

  -- The state after a command, apart from what the reports change.
  Good : Cmd → Actuator Q → ℕ → Actuator Q → Type 0
  Good cmd act k act' = IsState act' × (HeldBy act' k ↔ HeldAfter cmd act k)

  Good-Kept : (cmd : Cmd) (act : Actuator Q) (k : ℕ) → Kept (Good cmd act k)
  unfolding Kept Good
  Good-Kept cmd act k hx hy act' (w, h) = (
    record {
      keys_ok = w.keys_ok;
      buttons_ok = w.buttons_ok;
      wheel_low = omega arith;
      wheel_high = omega arith;
    },
    h,
  )

  send_keys-Post :
      (P : Actuator Q → Type 0) (table : List ℕ) (mask : ℕ) (pressed : List ℕ × ℕ)
      (act : Actuator Q) (u : Usb)
      → P (record act { pressed_keys = pressed.0; key_count = pressed.1 })
      → Post P (send_keys table mask pressed act u)
  unfolding send_keys Post
  send_keys-Post P table mask pressed act u p =
      kb-Post P (send_kb_report (keyboard_report table pressed.0 mask) u)
        (λ u'. some (record act { pressed_keys = pressed.0; key_count = pressed.1 }, u')) (λ u'. p)

  rekeyed :
      (act : Actuator Q) (keys : List ℕ) (count : ℕ)
      → IsState act
      → IsKeys keys count
      → IsInput keys count act.mouse_buttons act.mouse_wheel
  rekeyed act keys count w keys_ok = record {
    keys_ok = keys_ok;
    buttons_ok = w.buttons_ok;
    wheel_low = w.wheel_low;
    wheel_high = w.wheel_high;
  }

  rebuttoned :
      (act : Actuator Q) (buttons : ℕ)
      → IsState act
      → buttons < 8
      → IsInput act.pressed_keys act.key_count buttons act.mouse_wheel
  rebuttoned act buttons w buttons_ok = record {
    keys_ok = w.keys_ok;
    buttons_ok = buttons_ok;
    wheel_low = w.wheel_low;
    wheel_high = w.wheel_high;
  }

  rewheeled :
      (act : Actuator Q) (dy : ℤ)
      → IsState act
      → IsInput act.pressed_keys act.key_count act.mouse_buttons (dampen dy)
  unfolding dampen
  rewheeled act dy w = record {
    keys_ok = w.keys_ok;
    buttons_ok = w.buttons_ok;
    wheel_low = ground arith;
    wheel_high = ground arith;
  }

  hid_step-Post :
      (table : List ℕ) (cmd : Cmd) (act : Actuator Q) (u : Usb) (k : ℕ)
      → IsState act
      → Post (Good cmd act k) (hid_step table cmd act u)
  unfolding hid_step Post Good HeldAfter
  hid_step-Post table (key_down key mask button) act u k w =
      let pressed = press_key act.pressed_keys act.key_count key in
      let (ok, held) = press_key_lem act.pressed_keys act.key_count key k w.keys_ok in
      send_keys-Post (Good (key_down key mask button) act k) table mask pressed act u
        (rekeyed act pressed.0 pressed.1 w ok, held)
  hid_step-Post table (key_up key mask button) act u k w =
      let pressed = release_key act.pressed_keys act.key_count key in
      let (ok, held) = release_key_lem act.pressed_keys act.key_count key k w.keys_ok in
      send_keys-Post (Good (key_up key mask button) act k) table mask pressed act u
        (rekeyed act pressed.0 pressed.1 w ok, held)
  hid_step-Post table (key_repeat key mask button count) act u k w = (w, (λ h. h, λ h. h))
  hid_step-Post table (mouse_down id) act u k w =
      let buttons = bit_or act.mouse_buttons (barrier_button_to_hid id) in
      retry-Post (Good (mouse_down id) act k) (record act { mouse_buttons = buttons }) u
        (Good-Kept (mouse_down id) act k)
        (
          rebuttoned act buttons w
              (or_lt act.mouse_buttons (barrier_button_to_hid id) w.buttons_ok (button_lt id)),
          (λ h. h, λ h. h),
        )
  hid_step-Post table (mouse_up id) act u k w =
      let buttons = bit_and act.mouse_buttons (255 - barrier_button_to_hid id) in
      retry-Post (Good (mouse_up id) act k) (record act { mouse_buttons = buttons }) u
        (Good-Kept (mouse_up id) act k)
        (
          rebuttoned act buttons w
              (and_lt act.mouse_buttons (255 - barrier_button_to_hid id) w.buttons_ok),
          (λ h. h, λ h. h),
        )
  hid_step-Post table (mouse_wheel dx dy) act u k w =
      retry-Post (Good (mouse_wheel dx dy) act k) (record act { mouse_wheel = dampen dy }) u
        (Good-Kept (mouse_wheel dx dy) act k) (rewheeled act dy w, (λ h. h, λ h. h))
  hid_step-Post table (enter x y mask) act u k w =
      let P = Good (enter x y mask) act k in
      next-Post P P (send_abs_mouse_once (at_target x y act) u)
        (λ r.
          if mask == 0
          then some r
          else (send_kb_report (mask_to_tusb_modifier mask ∷ replicate 7 0) r.1 >>= λ u''.
              some (r.0, u'')))
        (once-Post P (at_target x y act) u (Good-Kept (enter x y mask) act k) (w, (λ h. h, λ h. h)))
        (λ act' u' p.
          if-Post P (mask == 0) (some (act', u'))
            (send_kb_report (mask_to_tusb_modifier mask ∷ replicate 7 0) u' >>= λ u''.
              some (act', u''))
            p
            (kb-Post P (send_kb_report (mask_to_tusb_modifier mask ∷ replicate 7 0) u')
              (λ u''. some (act', u'')) (λ u''. p)))
  hid_step-Post table leave act u k w =
      let P = Good leave act k in
      let cleared = record (clear_keys act) { mouse_buttons = 0; mouse_wheel = pos 0 } in
      kb-Post P (send_kb_report (replicate 8 0) u) (λ u'. send_abs_mouse_once cleared u')
        (λ u'. once-Post P cleared u' (Good-Kept leave act k) (released, released_none k))
  hid_step-Post table jiggle act u k w =
      let P = Good jiggle act k in
      next-Post P P (send_abs_mouse_once (at_target (jiggle_x act) act.target_y act) u)
        (λ r. send_abs_mouse_once (at_target act.target_x act.target_y r.0) r.1)
        (once-Post P (at_target (jiggle_x act) act.target_y act) u (Good-Kept jiggle act k)
          (w, (λ h. h, λ h. h)))
        (λ act' u' p.
          once-Post P (at_target act.target_x act.target_y act') u' (Good-Kept jiggle act k) p)
  hid_step-Post table connected act u k w = (w, (λ h. h, λ h. h))
  hid_step-Post table disconnected act u k w = (released, released_none k)
  hid_step-Post table (set_screen_size width height) act u k w = (w, (λ h. h, λ h. h))
  hid_step-Post table (set_scaling scaling) act u k w = (w, (λ h. h, λ h. h))

  -- Every command that completes keeps the key array well formed, the buttons in three bits and the
  -- wheel in -3 to 3, and changes the set of held keys as `HeldAfter` says: a press adds its key if
  -- there is room, a release removes its key, or every key if its key is not held, leaving and
  -- losing the connection release all, and no other command changes any.
  pub hid_step_lem :
      (table : List ℕ) (cmd : Cmd) (act act' : Actuator Q) (u u' : Usb) (k : ℕ)
      → IsState act
      → hid_step table cmd act u ≡ some (act', u')
      → IsState act' × (HeldBy act' k ↔ HeldAfter cmd act k)
  unfolding Good Post
  hid_step_lem table cmd act act' u u' k w e =
      subst (λ r. Post (Good cmd act k) r) e (hid_step-Post table cmd act u k w)

  pub hid_step-IsState :
      (table : List ℕ) (cmd : Cmd) (act : Actuator Q) (u : Usb)
      → IsState act
      → Post IsState (hid_step table cmd act u)
  unfolding Good
  hid_step-IsState table cmd act u w =
      Post-map (Good cmd act 0) IsState (hid_step table cmd act u) (λ act' p. p.0)
        (hid_step-Post table cmd act u 0 w)

pub IsState-init : {Q : Type 0} (q : Q) (w h : ℕ) → IsState (tusb_actuator_init q w h)
IsState-init q w h = released
