-- ===== src/Actuator/Preserved.antt =====
-- What the calls and rounds of main/tusb/tusb_actuator.c keep, one by one.
use esp32_deskflow.Prelude.{
  ℕ, ◌+◌, ◌≡◌, subst, Bool, true, false, ◌&&◌, List, Option, some, none, ◌==◌, if◌then◌else◌, arith,
}
use esp32_deskflow.Esp.{EspErr, esp_ok, esp_err_timeout}
use esp32_deskflow.Actuator.{Cmd, disconnected, CmdQueue, Actuator}
use esp32_deskflow.Actuator.Queue.{dump_queue, enqueue}
use esp32_deskflow.Actuator.Position.{notify_movement}
use esp32_deskflow.Actuator.Usb.{Usb, send_abs_mouse_once}
use esp32_deskflow.Actuator.Hid.{Round, hid_movement, hid_command, hid_round, hid_step}
use esp32_deskflow.Actuator.Conditions.{Post, Kept, if-Post, once-Post, next-Post}
use esp32_deskflow.Actuator.Steps.{IsState, hid_step-IsState}

module _ (fifo : CmdQueue) (table : List ℕ) where
  open fifo use {Handle, send, receive}

  -- A conditional keeps what both branches keep.
  pub if-IsState :
      {A : Type 0} (f : A → Actuator Handle) (b : Bool) (x y : A)
      → IsState (f x)
      → IsState (f y)
      → IsState (f (if b then x else y))
  if-IsState f true x y p q = p
  if-IsState f false x y p q = q

  pub enqueue-IsState :
      (act : Actuator Handle) (cmd : Cmd) → IsState act → IsState (enqueue fifo act cmd).1
  unfolding enqueue dump_queue
  enqueue-IsState act cmd w =
      let sent = send cmd act.cmd_queue in
      let act' = record act { cmd_queue = sent.1 } in
      let woken = record act' { wakes = act.wakes + 1 } in
      if-IsState (λ (r : EspErr × Actuator Handle). r.1) sent.0
        (esp_ok, if act.hid_task then woken else act') (esp_err_timeout, dump_queue fifo act')
        (if-IsState (λ (r : Actuator Handle). r) act.hid_task woken act' w w) w

  -- A filtered command: nothing changes, or the fields of the filter do and the command is queued.
  pub filtered :
      (act noted : Actuator Handle) (duplicate : Bool) (cmd : Cmd)
      → IsState act
      → IsState noted
      → IsState (if duplicate then (esp_ok, act) else enqueue fifo noted cmd).1
  filtered act noted duplicate cmd w v =
      if-IsState (λ (r : EspErr × Actuator Handle). r.1) duplicate (esp_ok, act)
        (enqueue fifo noted cmd) w (enqueue-IsState noted cmd v)

  pub notify-IsState :
      (cas_ok : Bool) (act : Actuator Handle) → IsState act → IsState (notify_movement cas_ok act)
  unfolding notify_movement
  notify-IsState cas_ok act w =
      let pending = record act { movement_pending = 1; wakes = act.wakes + 1 } in
      if-IsState (λ (r : Actuator Handle). r) (act.movement_pending == 0)
        (if cas_ok then pending else act) act
        (if-IsState (λ (r : Actuator Handle). r) cas_ok pending act w w) w

  pub flushed :
      (act act' : Actuator Handle) (o : Option Handle) (e : EspErr)
      → IsState act
      → (elim o [
        | none ↦ none
        | some q ↦ some (enqueue fifo (record act { cmd_queue = q }) disconnected)
      ])
        ≡ some (e, act')
      → IsState act'
  flushed act act' none e w run = ground arith
  flushed act act' (some q) e w run =
      subst
        (λ (o : Option (EspErr × Actuator Handle)). elim o [
          | none ↦ Unit {0}
          | some r ↦ IsState r.1
        ])
        run (enqueue-IsState (record act { cmd_queue = q }) disconnected w)

  pub IsState-Kept : Kept {Q = Handle} IsState
  unfolding Kept
  IsState-Kept hx hy act w = record {
    keys_ok = w.keys_ok;
    buttons_ok = w.buttons_ok;
    wheel_low = omega arith;
    wheel_high = omega arith;
  }

  pub movement-Post :
      (r : Round) (act : Actuator Handle) (u : Usb)
      → IsState act
      → Post IsState (hid_movement fifo r act u)
  unfolding hid_movement Post
  movement-Post r act u w =
      let act' = record act { movement_pending = 0 } in
      if-Post IsState ((act.movement_pending == 1) && r.cas_ok)
        (if r.mounted_before then send_abs_mouse_once act' u else some (act', u)) (some (act, u))
        (if-Post IsState r.mounted_before (send_abs_mouse_once act' u) (some (act', u))
          (once-Post IsState act' u IsState-Kept w) w)
        w

  pub command-Post :
      (r : Round) (act : Actuator Handle) (u : Usb)
      → IsState act
      → Post IsState (hid_command fifo table r act u)
  unfolding hid_command Post
  command-Post r act u w =
      let act' = record act { cmd_queue = (receive act.cmd_queue).1 } in
      elim (receive act.cmd_queue).0
        as (λ o. Post IsState (elim o [
          | none ↦ some (act', u)
          | some cmd ↦ if r.mounted_after then hid_step table cmd act' u else some (act', u)
        ])) [
          | none ↦ w
          | some cmd ↦
              if-Post IsState r.mounted_after (hid_step table cmd act' u) (some (act', u))
                (hid_step-IsState table cmd act' u w) w
        ]

  pub round-IsState :
      (r : Round) (act act' : Actuator Handle) (u u' : Usb)
      → IsState act
      → hid_round fifo table r act u ≡ some (act', u')
      → IsState act'
  unfolding hid_round Post
  round-IsState r act act' u u' w run =
      subst (λ o. Post IsState o) run
        (next-Post IsState IsState (hid_movement fifo r act u)
          (λ s. hid_command fifo table r s.0 s.1) (movement-Post r act u w)
          (λ act'' u'' w'. command-Post r act'' u'' w'))
