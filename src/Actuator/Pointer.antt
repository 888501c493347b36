-- ===== src/Actuator/Pointer.antt =====
-- Where the pointer can be: the positions that main/tusb/tusb_actuator.c computes.
use esp32_deskflow.Prelude.{
  ℕ, ◌+◌, ◌-◌, ◌*◌, ◌/◌, ◌^◌, ◌≤◌, ◌<◌, ◌≡◌, arith, ℤ, pos, negsuc, ◌+ℤ◌, pos_part, neg_part, Bool,
  IsInt16, min, ◌∙◌,
}
use native.Mathlib.Nat.{le-div_iff_mul-le, mul-div_right, div-mul-le_self}
use esp32_deskflow.Actuator.{Actuator}
use esp32_deskflow.Actuator.Position.{
  abs_ptr_max, denom_of, to_hid, clamp_u16, notify_movement, actuator_move_relative,
}

denom_of-eq : (size : ℕ) → 1 ≤ size → size < 2 ^ 16 → denom_of size ≡ size - 1
denom_of-eq size low high = omega arith

div_mono : (a b d : ℕ) → 0 < d → a ≤ b → a / d ≤ b / d
div_mono a b d h le = (le-div_iff_mul-le h).1 (omega (arith, div-mul-le_self a d))

scale_eq :
    (size x : ℕ)
    → 2 ≤ size
    → size < 2 ^ 16
    → x < size
    → to_hid size x ≡ x * abs_ptr_max / (size - 1)
unfolding to_hid
scale_eq size x low high inside =
    let e : denom_of size ≡ size - 1 = omega arith in
    let top : (size - 1) * abs_ptr_max / (size - 1) ≡ abs_ptr_max =
      mul-div_right abs_ptr_max (omega arith) in
    let bound : x * abs_ptr_max / (size - 1) ≤ (size - 1) * abs_ptr_max / (size - 1) =
      div_mono (x * abs_ptr_max) ((size - 1) * abs_ptr_max) (size - 1) (omega arith)
        (omega arith) in
    ground (arith, e, top, bound)

-- On a screen of 2 to 65535 pixels, the first pixel is scaled to 0 and the last to 32767, nothing
-- wraps in between, and a position further on is never scaled to less.
pub to_hid_lem :
    (size x y : ℕ)
    → 2 ≤ size
    → size < 2 ^ 16
    → x ≤ y
    → y < size
    → (to_hid size 0 ≡ 0)
      × (to_hid size (size - 1) ≡ abs_ptr_max)
      × (to_hid size y ≡ y * abs_ptr_max / (size - 1))
      × (to_hid size x ≤ to_hid size y)
      × (to_hid size y ≤ abs_ptr_max)
to_hid_lem size x y low high order inside =
    let d = size - 1 in
    let at = λ (z : ℕ) (h : z < size). scale_eq size z low high h in
    let top : d * abs_ptr_max / d ≡ abs_ptr_max = mul-div_right abs_ptr_max (omega arith) in
    let last : d < size = omega arith in
    let up : y * abs_ptr_max / d ≤ d * abs_ptr_max / d =
      div_mono (y * abs_ptr_max) (d * abs_ptr_max) d (omega arith) (omega arith) in
    let step : x * abs_ptr_max / d ≤ y * abs_ptr_max / d =
      div_mono (x * abs_ptr_max) (y * abs_ptr_max) d (omega arith) (omega arith) in
    (
      at 0 (omega arith) ∙ omega arith,
      at d last ∙ top,
      at y inside,
      omega (arith, at x (omega arith), at y inside, step),
      omega (arith, at y inside, up, top),
    )

clamp_lem :
    (t size : ℕ) (d : ℤ)
    → t < 2 ^ 16
    → IsInt16 d
    → 1 ≤ size
    → size < 2 ^ 16
    → clamp_u16 (pos t +ℤ d) (denom_of size) ≡ min (t + pos_part d - neg_part d) (size - 1)
unfolding clamp_u16
clamp_lem t size (pos n) h i low high = ground arith
clamp_lem t size (negsuc n) h i low high = ground arith

module _ {Q : Type 0} where
  notify-target :
      (cas_ok : Bool) (act : Actuator Q)
      → ((notify_movement cas_ok act).target_x ≡ act.target_x)
        × ((notify_movement cas_ok act).target_y ≡ act.target_y)
  unfolding notify_movement
  notify-target cas_ok act = ground arith

-- A relative movement takes the target to the sum, stopped at 0 and at the last pixel of the
-- screen, on both axes, for a screen of 1 to 65535 pixels a side, whatever the compare-and-swap does.
pub move_relative_lem :
    {Q : Type 0} (cas_ok : Bool) (act : Actuator Q) (dx dy : ℤ)
    → act.target_x < 2 ^ 16
    → act.target_y < 2 ^ 16
    → IsInt16 dx
    → IsInt16 dy
    → 1 ≤ act.screen_width
    → act.screen_width < 2 ^ 16
    → 1 ≤ act.screen_height
    → act.screen_height < 2 ^ 16
    → (let act' = actuator_move_relative cas_ok act dx dy in
        (act'.target_x ≡ min (act.target_x + pos_part dx - neg_part dx) (act.screen_width - 1))
        × (act'.target_y ≡ min (act.target_y + pos_part dy - neg_part dy) (act.screen_height - 1)))
unfolding actuator_move_relative
move_relative_lem cas_ok act dx dy x y i j w1 w2 h1 h2 =
    let moved = record act {
      target_x = clamp_u16 (pos act.target_x +ℤ dx) (denom_of act.screen_width);
      target_y = clamp_u16 (pos act.target_y +ℤ dy) (denom_of act.screen_height);
    } in
    let (kept_x, kept_y) = notify-target cas_ok moved in
    (
      kept_x ∙ clamp_lem act.target_x act.screen_width dx x i w1 w2,
      kept_y ∙ clamp_lem act.target_y act.screen_height dy y j h1 h2,
    )
