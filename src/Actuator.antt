-- ===== src/Actuator.antt =====
-- main/tusb/tusb_actuator.h: the commands and the state that the network task and the HID task
-- share. The FreeRTOS queue between them is a parameter, with what its manual promises.
pub mod Queue
pub mod Position
pub mod Keys
pub mod Report
pub mod Usb
pub mod Hid
pub mod Fifo
pub mod Delivery
mod Descriptor
mod Decoded
mod Pointer
mod Sending
mod Conditions
mod Steps
mod Progress
mod Preserved
pub mod System
mod Release
mod DescriptorTests
mod Tests
use esp32_deskflow.Prelude.{
  ℕ, ◌≡◌, ◌<◌, ◌-◌, ℤ, pos, Bool, true, false, List, [], ◌∷◌, ◌++◌, Option, some, none, length,
  replicate,
}

-- `act_cmd_t`: the type with the member of the union that it selects.
pub data Cmd : Type 0 where
  -- key mask button
  key_down : ℕ → ℕ → ℕ → Cmd
  key_up : ℕ → ℕ → ℕ → Cmd
  -- key mask button count
  key_repeat : ℕ → ℕ → ℕ → ℕ → Cmd
  -- id
  mouse_down : ℤ → Cmd
  mouse_up : ℤ → Cmd
  -- dx dy
  mouse_wheel : ℤ → ℤ → Cmd
  -- x y mask
  enter : ℕ → ℕ → ℕ → Cmd
  leave jiggle connected disconnected : Cmd
  -- w h
  set_screen_size : ℕ → ℕ → Cmd
  -- scaling
  set_scaling : ℕ → Cmd

-- Values of `act_cmd_type_t` that the duplicate filter stores.
abbrev pub act_cmd_key_down : ℕ
act_cmd_key_down = 0

abbrev pub act_cmd_key_up : ℕ
act_cmd_key_up = 1

abbrev pub act_cmd_mouse_down : ℕ
act_cmd_mouse_down = 3

abbrev pub act_cmd_mouse_up : ℕ
act_cmd_mouse_up = 4

abbrev pub act_important_queue_depth : ℕ
act_important_queue_depth = 32

-- A FreeRTOS queue of commands, as its manual describes it: first in, first out; a receive without
-- waiting fails on an empty queue alone; a send is refused only at the full depth and then changes
-- nothing. The calls are taken as atomic: what the other task does during a wait is a call of its
-- own before or after.
pub record CmdQueue : Type 1 where
  pub Handle : Type 0
  pub contents : Handle → List Cmd
  pub send : Cmd → Handle → Bool × Handle
  pub receive : Handle → Option Cmd × Handle
  pub messages_waiting : Handle → ℕ
  pub send_accepted :
      (c : Cmd) (q : Handle) → (send c q).0 ≡ true → contents (send c q).1 ≡ contents q ++ c ∷ []
  pub send_refused :
      (c : Cmd) (q : Handle) → (send c q).0 ≡ false → contents (send c q).1 ≡ contents q
  pub send_room :
      (c : Cmd) (q : Handle) → length (contents q) < act_important_queue_depth → (send c q).0 ≡ true
  pub receive_empty : (q : Handle) → contents q ≡ [] → receive q ≡ (none, q)
  pub receive_first :
      (q : Handle) (c : Cmd) (cs : List Cmd)
      → contents q ≡ c ∷ cs
      → ((receive q).0 ≡ some c) × (contents (receive q).1 ≡ cs)
  pub messages_waiting_lem : (q : Handle) → messages_waiting q ≡ length (contents q)

-- `tusb_actuator_t`. `hid_task` tells whether the handle is set; `wakes` counts the notifications
-- given to that task. `last_queued_wheel_dy` is never used by the source.
pub record Actuator (Q : Type 0) : Type 0 where
  pub screen_width : ℕ
  pub screen_height : ℕ
  pub scaling : ℕ
  pub target_x : ℕ
  pub target_y : ℕ
  pub movement_pending : ℕ
  pub mouse_buttons : ℕ
  pub mouse_wheel : ℤ
  pub pressed_keys : List ℕ
  pub key_count : ℕ
  pub last_sent_hx : ℕ
  pub last_sent_hy : ℕ
  pub last_sent_buttons : ℕ
  pub last_queued_kb_time : ℕ
  pub last_queued_kb_key : ℕ
  pub last_queued_kb_mask : ℕ
  pub last_queued_kb_type : ℕ
  pub last_queued_btn_time : ℕ
  pub last_queued_btn_id : ℤ
  pub last_queued_btn_type : ℕ
  pub last_queued_wheel_time : ℕ
  pub cmd_queue : Q
  pub hid_task : Bool
  pub wakes : ℕ

-- `tusb_actuator_init` on a zeroed structure, with the queue that `xQueueCreate` returned.
abbrev pub tusb_actuator_init : {Q : Type 0} → Q → ℕ → ℕ → Actuator Q
tusb_actuator_init q screen_width screen_height = record {
  screen_width = screen_width;
  screen_height = screen_height;
  scaling = 100;
  target_x = 0;
  target_y = 0;
  movement_pending = 0;
  mouse_buttons = 0;
  mouse_wheel = pos 0;
  pressed_keys = replicate 6 0;
  key_count = 0;
  last_sent_hx = 0;
  last_sent_hy = 0;
  last_sent_buttons = 0;
  last_queued_kb_time = 0;
  last_queued_kb_key = 0;
  last_queued_kb_mask = 0;
  last_queued_kb_type = 0;
  last_queued_btn_time = 0;
  last_queued_btn_id = pos 0;
  last_queued_btn_type = 0;
  last_queued_wheel_time = 0;
  cmd_queue = q;
  hid_task = false;
  wakes = 0;
}
