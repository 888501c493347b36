-- ===== src/Actuator/System.antt =====
-- The actuator of main/tusb/tusb_actuator.c between its two tasks: the network task's calls, the
-- host's events and the rounds of hid_task, in any order.
use esp32_deskflow.Prelude.{ℕ, ◌≡◌, Bool, ◌&&◌, ◌+ℤ◌, List, ℤ, pos, some, ◌==◌, eqb_ℤ}
use esp32_deskflow.Esp.{EspErr}
use esp32_deskflow.Actuator.{
  Cmd, CmdQueue, Actuator, tusb_actuator_init, act_cmd_key_down, act_cmd_key_up, act_cmd_mouse_down,
  act_cmd_mouse_up,
}
use esp32_deskflow.Actuator.Queue.{
  recent, actuator_queue_key_down, actuator_queue_key_up, actuator_queue_mouse_down,
  actuator_queue_mouse_up, actuator_queue_mouse_wheel, actuator_queue_enter, actuator_queue_leave,
  actuator_queue_jiggle, actuator_queue_connected, actuator_queue_set_screen_size,
  actuator_queue_set_scaling, flush, actuator_queue_disconnected,
}
use esp32_deskflow.Actuator.Position.{
  actuator_set_movement, actuator_move_relative, clamp_u16, denom_of,
}
use esp32_deskflow.Actuator.Usb.{Usb, tud_suspend_cb, tud_resume_cb}
use esp32_deskflow.Actuator.Hid.{Round, hid_round}
use esp32_deskflow.Actuator.Preserved.{
  enqueue-IsState, filtered, flushed, notify-IsState, round-IsState,
}
use esp32_deskflow.Actuator.Steps.{IsState, IsState-init}

module _ (fifo : CmdQueue) (table : List ℕ) where
  open fifo use {Handle, send, receive}

  -- One event: a call of the network task, a call of TinyUSB, answers that TinyUSB will give, or a
  -- completed round of hid_task.
  pub data Step (act : Actuator Handle) (u : Usb) : Actuator Handle → Usb → Type 0 where
    key_down :
        (now key mask button : ℕ)
        → Step act u (actuator_queue_key_down fifo now act key mask button).1 u
    key_up :
        (now key mask button : ℕ)
        → Step act u (actuator_queue_key_up fifo now act key mask button).1 u
    mouse_down :
        (now : ℕ) (button : ℤ) → Step act u (actuator_queue_mouse_down fifo now act button).1 u
    mouse_up : (now : ℕ) (button : ℤ) → Step act u (actuator_queue_mouse_up fifo now act button).1 u
    mouse_wheel :
        (now : ℕ) (dx dy : ℤ) → Step act u (actuator_queue_mouse_wheel fifo now act dx dy).1 u
    enter : (x y mask : ℕ) → Step act u (actuator_queue_enter fifo act x y mask).1 u
    leave : Step act u (actuator_queue_leave fifo act).1 u
    jiggle : Step act u (actuator_queue_jiggle fifo act).1 u
    connected : Step act u (actuator_queue_connected fifo act).1 u
    disconnect :
        (fuel : ℕ) (e : EspErr) (act' : Actuator Handle)
        → actuator_queue_disconnected fifo fuel act ≡ some (e, act')
        → Step act u act' u
    set_screen_size : (w h : ℕ) → Step act u (actuator_queue_set_screen_size fifo act w h).1 u
    set_scaling : (scaling : ℕ) → Step act u (actuator_queue_set_scaling fifo act scaling).1 u
    set_movement : (cas_ok : Bool) (x y : ℕ) → Step act u (actuator_set_movement cas_ok act x y) u
    move_relative :
        (cas_ok : Bool) (dx dy : ℤ) → Step act u (actuator_move_relative cas_ok act dx dy) u
    suspend : (enabled : Bool) → Step act u act (tud_suspend_cb enabled u)
    resume : Step act u act (tud_resume_cb u)
    answers : (replies : List Bool) → Step act u act (record u { replies = replies })
    round :
        (r : Round) (act' : Actuator Handle) (u' : Usb)
        → hid_round fifo table r act u ≡ some (act', u')
        → Step act u act' u'

  -- The states that events lead to from `tusb_actuator_init` on, whatever USB state it meets.
  pub data Reach : Actuator Handle → Usb → Type 0 where
    start : (q : Handle) (w h : ℕ) (u : Usb) → Reach (tusb_actuator_init q w h) u
    later :
        {act act' : Actuator Handle} {u u' : Usb} → Reach act u → Step act u act' u' → Reach act' u'

  Step-IsState :
      (act act' : Actuator Handle) (u u' : Usb) → Step act u act' u' → IsState act → IsState act'
  unfolding actuator_queue_key_down actuator_queue_key_up actuator_queue_mouse_down
      actuator_queue_mouse_up actuator_queue_mouse_wheel actuator_queue_enter actuator_queue_leave
      actuator_queue_jiggle actuator_queue_connected actuator_queue_set_screen_size
      actuator_queue_set_scaling actuator_queue_disconnected actuator_set_movement
      actuator_move_relative
  Step-IsState act act' u u' (key_down now key mask button) w =
      filtered fifo table act
        (record act {
          last_queued_kb_time = now;
          last_queued_kb_key = key;
          last_queued_kb_mask = mask;
          last_queued_kb_type = act_cmd_key_down;
        })
        (act.last_queued_kb_type == act_cmd_key_down
          && (act.last_queued_kb_key == key)
          && (act.last_queued_kb_mask == mask)
          && recent now act.last_queued_kb_time)
        (Cmd.key_down key mask button) w w
  Step-IsState act act' u u' (key_up now key mask button) w =
      filtered fifo table act
        (record act {
          last_queued_kb_time = now;
          last_queued_kb_key = key;
          last_queued_kb_mask = mask;
          last_queued_kb_type = act_cmd_key_up;
        })
        (act.last_queued_kb_type == act_cmd_key_up
          && (act.last_queued_kb_key == key)
          && (act.last_queued_kb_mask == mask)
          && recent now act.last_queued_kb_time)
        (Cmd.key_up key mask button) w w
  Step-IsState act act' u u' (mouse_down now button) w =
      filtered fifo table act
        (record act {
          last_queued_btn_time = now;
          last_queued_btn_id = button;
          last_queued_btn_type = act_cmd_mouse_down;
        })
        (act.last_queued_btn_type == act_cmd_mouse_down
          && eqb_ℤ act.last_queued_btn_id button
          && recent now act.last_queued_btn_time)
        (Cmd.mouse_down button) w w
  Step-IsState act act' u u' (mouse_up now button) w =
      filtered fifo table act
        (record act {
          last_queued_btn_time = now;
          last_queued_btn_id = button;
          last_queued_btn_type = act_cmd_mouse_up;
        })
        (act.last_queued_btn_type == act_cmd_mouse_up
          && eqb_ℤ act.last_queued_btn_id button
          && recent now act.last_queued_btn_time)
        (Cmd.mouse_up button) w w
  Step-IsState act act' u u' (mouse_wheel now dx dy) w =
      filtered fifo table act (record act { last_queued_wheel_time = now })
        (recent now act.last_queued_wheel_time) (Cmd.mouse_wheel dx dy) w w
  Step-IsState act act' u u' (enter x y mask) w =
      enqueue-IsState fifo table act (Cmd.enter x y mask) w
  Step-IsState act act' u u' leave w = enqueue-IsState fifo table act Cmd.leave w
  Step-IsState act act' u u' jiggle w = enqueue-IsState fifo table act Cmd.jiggle w
  Step-IsState act act' u u' connected w = enqueue-IsState fifo table act Cmd.connected w
  Step-IsState act act' u u' (disconnect fuel e act'' run) w =
      flushed fifo table act act'' (flush fifo fuel act.cmd_queue) e w run
  Step-IsState act act' u u' (set_screen_size width height) w =
      enqueue-IsState fifo table act (Cmd.set_screen_size width height) w
  Step-IsState act act' u u' (set_scaling scaling) w =
      enqueue-IsState fifo table act (Cmd.set_scaling scaling) w
  Step-IsState act act' u u' (set_movement cas_ok x y) w =
      notify-IsState fifo table cas_ok (record act { target_x = x; target_y = y }) w
  Step-IsState act act' u u' (move_relative cas_ok dx dy) w =
      notify-IsState fifo table cas_ok
        (record act {
          target_x = clamp_u16 (pos act.target_x +ℤ dx) (denom_of act.screen_width);
          target_y = clamp_u16 (pos act.target_y +ℤ dy) (denom_of act.screen_height);
        })
        w
  Step-IsState act act' u u' (suspend enabled) w = w
  Step-IsState act act' u u' resume w = w
  Step-IsState act act' u u' (answers replies) w = w
  Step-IsState act act' u u' (round r act'' u'' run) w =
      round-IsState fifo table r act act'' u u'' w run

  -- In every state that events can lead to, at most six keys are recorded, none twice, with zeros
  -- behind them, the buttons fit in three bits, and the wheel is within -3 to 3.
  pub Reach-IsState : (act : Actuator Handle) (u : Usb) → Reach act u → IsState act
  Reach-IsState act u (start q w h usb) = IsState-init q w h
  Reach-IsState act u (later {act = before} {u = u1} reach step) =
      Step-IsState before act u1 u step (Reach-IsState before u1 reach)
