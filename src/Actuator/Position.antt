-- ===== src/Actuator/Position.antt =====
-- Pointer positions of main/tusb/tusb_actuator.c: movement that bypasses the queue, and the scaling
-- to HID coordinates.
use esp32_deskflow.Prelude.{
  ℕ, ◌+◌, ◌-◌, ◌*◌, ◌/◌, ◌%◌, ◌^◌, ℤ, pos, ◌+ℤ◌, ltb_ℤ, pos_part, Bool, ltb, ◌==◌, if◌then◌else◌,
  u16, u32,
}
use esp32_deskflow.Actuator.{Actuator}

abbrev pub abs_ptr_max : ℕ
abs_ptr_max = 32767

-- `uint16_t denom = size - 1`.
abbrev pub denom_of : ℕ → ℕ
denom_of size = (size + 2 ^ 16 - 1) % 2 ^ 16

-- `to_hid_x` and `to_hid_y` differ in the side of the screen only.
unfoldable pub to_hid : ℕ → ℕ → ℕ
to_hid size x =
    let denom = denom_of size in if denom == 0 then 0 else u16 (u32 (x * abs_ptr_max) / denom)

module _ {Q : Type 0} where
  unfoldable pub to_hid_x : Actuator Q → ℕ → ℕ
  unfolding to_hid
  to_hid_x act x = to_hid act.screen_width x

  unfoldable pub to_hid_y : Actuator Q → ℕ → ℕ
  unfolding to_hid
  to_hid_y act y = to_hid act.screen_height y

unfoldable pub clamp_u16 : ℤ → ℕ → ℕ
clamp_u16 v max =
    if ltb_ℤ v (pos 0) then 0 else if ltb max (u32 (pos_part v)) then max else u16 (pos_part v)

module _ {Q : Type 0} where
  -- The compare-and-swap from 0 to 1; it may fail spuriously, which `cas_ok` decides.
  unfoldable pub notify_movement : Bool → Actuator Q → Actuator Q
  notify_movement cas_ok act =
      if act.movement_pending == 0
      then (if cas_ok then record act { movement_pending = 1; wakes = act.wakes + 1 } else act)
      else act

  unfoldable pub actuator_set_movement : Bool → Actuator Q → ℕ → ℕ → Actuator Q
  unfolding notify_movement
  actuator_set_movement cas_ok act x y =
      notify_movement cas_ok (record act { target_x = x; target_y = y })

  unfoldable pub actuator_move_relative : Bool → Actuator Q → ℤ → ℤ → Actuator Q
  unfolding notify_movement clamp_u16
  actuator_move_relative cas_ok act dx dy =
      let nx = pos act.target_x +ℤ dx in
      let ny = pos act.target_y +ℤ dy in
      notify_movement cas_ok (record act {
        target_x = clamp_u16 nx (denom_of act.screen_width);
        target_y = clamp_u16 ny (denom_of act.screen_height);
      })
