-- ===== src/Actuator/Report.antt =====
-- The reports that hid_task of main/tusb/tusb_actuator.c builds: the keyboard report from the
-- pressed keys, and the absolute mouse report.
use esp32_deskflow.Prelude.{
  ℕ, zero, suc, ◌+◌, ◌-◌, ◌*◌, ◌/◌, ◌%◌, ◌^◌, ◌≤◌, ◌<◌, ◌≡◌, ◌↔◌, ◌⊎◌, inl, inr, refl, arith, List,
  [], ◌∷◌, ◌&&◌, leb, ltb, ◌==◌, ==_iff, holds_below, holds_below_at, ap, IsInt8, int8_of_u8,
  int8_of_u8-u8_of_int, if◌then◌else◌, length, get_or, u8, ◌<<<◌, ◌>>>◌, bit_or, bit_and, ℤ,
  u8_of_int, or_digit, and_byte, Bool, true,
}
use esp32_deskflow.Keycodes.{barrier_key_to_hid, mask_to_tusb_modifier}
use esp32_deskflow.Keycodes.Layouts.{IsLayout, usage_range}

-- `k ? barrier_key_to_hid(k) : 0`.
unfoldable pub usage_of : List ℕ → ℕ → ℕ
usage_of table k = if k == 0 then 0 else u8 (barrier_key_to_hid table k)

-- `hid >= 0xE0 && hid <= 0xE7`.
abbrev pub is_modifier : ℕ → Bool
is_modifier hid = leb 0xe0 hid && leb hid 0xe7

-- `report[0] |= (uint8_t)(1u << (hid - 0xE0))` for a modifier key.
unfoldable pub merge_modifier : ℕ → ℕ → ℕ
merge_modifier hid modifier =
    if is_modifier hid then bit_or modifier (u8 (1 <<< (hid - 0xe0))) else modifier

-- The loop over the cells: `report[0]` and the bytes from `report[2]` on.
unfoldable pub fill_report : List ℕ → List ℕ → ℕ → ℕ × List ℕ
unfolding usage_of merge_modifier
fill_report table [] modifier = (modifier, [])
fill_report table (k ∷ ks) modifier =
    let hid = usage_of table k in
    let (final, slots) = fill_report table ks (merge_modifier hid modifier) in
    (final, (if is_modifier hid then 0 else hid) ∷ slots)

-- The report that KEY_DOWN and KEY_UP send for the array of pressed keys.
unfoldable pub keyboard_report : List ℕ → List ℕ → ℕ → List ℕ
unfolding fill_report
keyboard_report table keys mask =
    let (modifier, slots) = fill_report table keys (mask_to_tusb_modifier mask) in
    modifier ∷ 0 ∷ slots

unfoldable pub mouse_report : ℕ → ℕ → ℕ → ℤ → List ℕ
mouse_report buttons hx hy wheel =
    buttons
    ∷ u8 (bit_and hx 0xff)
    ∷ u8 (hx >>> 8)
    ∷ u8 (bit_and hy 0xff)
    ∷ u8 (hy >>> 8)
    ∷ u8_of_int wheel
    ∷ []

-- Binary digit `n`.
abbrev pub bit : ℕ → ℕ → ℕ
bit zero a = a % 2
bit (suc n) a = bit n (a / 2)

bit_or-digit : (n a b : ℕ) → (bit n (bit_or a b) ≡ 1) ↔ ((bit n a ≡ 1) ⊎ (bit n b ≡ 1))
bit_or-digit zero a b = ground (arith, or_digit a b)
bit_or-digit (suc n) a b =
    let e : bit_or a b / 2 ≡ bit_or (a / 2) (b / 2) = ground (arith, or_digit a b) in
    rw e (bit_or-digit n (a / 2) (b / 2))

shift_table :
    holds_below (λ k. holds_below (λ n. bit n (u8 (1 <<< k)) == (if n == k then 1 else 0)) 8) 8
    ≡ true
unfolding holds_below
shift_table = refl

bit-shift : (n k : ℕ) → n < 8 → k < 8 → bit n (u8 (1 <<< k)) ≡ (if n == k then 1 else 0)
bit-shift n k h i = (==_iff _ _).0 (holds_below_at _ 8 (holds_below_at _ 8 shift_table k i) n h)

bit-merge_modifier :
    (hid modifier n : ℕ)
    → n < 8
    → (bit n (merge_modifier hid modifier) ≡ 1) ↔ ((bit n modifier ≡ 1) ⊎ (hid ≡ 0xe0 + n))
unfolding merge_modifier
bit-merge_modifier hid modifier n h =
    ground (arith, bit_or-digit n modifier (u8 (1 <<< (hid - 0xe0))), bit-shift n (hid - 0xe0) h)

-- One of the keys has usage `u`.
abbrev pub HasUsage : List ℕ → List ℕ → ℕ → Type 0
HasUsage table keys u = (i : ℕ) × (i < length keys) × (usage_of table (get_or keys i 0) ≡ u)

fill_modifier :
    (table keys : List ℕ) (modifier n : ℕ)
    → n < 8
    → (bit n (fill_report table keys modifier).0 ≡ 1)
      ↔ ((bit n modifier ≡ 1) ⊎ HasUsage table keys (0xe0 + n))
unfolding fill_report
fill_modifier table [] modifier n h = (λ e. inl e, λ s. ground arith)
fill_modifier table (k ∷ ks) modifier n h =
    let merged = merge_modifier (usage_of table k) modifier in
    let here = bit-merge_modifier (usage_of table k) modifier n h in
    let rest = fill_modifier table ks merged n h in
    (
      λ e. elim (rest.0 e) [
        | inl b ↦ elim (here.0 b) [ inl c ↦ inl c | inr u ↦ inr (0, omega arith, u) ]
        | inr (i, l, u) ↦ inr (suc i, omega arith, u)
      ],
      λ s. elim s [
        | inl b ↦ rest.1 (inl (here.1 (inl b)))
        | inr (zero, l, u) ↦ rest.1 (inl (here.1 (inr u)))
        | inr (suc i, l, u) ↦ rest.1 (inr (i, omega arith, u))
      ],
    )

usage_le : (table : List ℕ) (k : ℕ) → IsLayout table → usage_of table k ≤ 0xe7
unfolding usage_of
usage_le table k l = ground (arith, usage_range table k l)

fill_slot :
    (table keys : List ℕ) (modifier i : ℕ)
    → IsLayout table
    → get_or (fill_report table keys modifier).1 i 0
      ≡ (let u = usage_of table (get_or keys i 0) in if ltb u 0xe0 then u else 0)
unfolding fill_report
fill_slot table [] modifier i l = unfold usage_of in refl
fill_slot table (k ∷ ks) modifier zero l = ground (arith, usage_le table k l)
fill_slot table (k ∷ ks) modifier (suc i) l =
    fill_slot table ks (merge_modifier (usage_of table k) modifier) i l

length-fill_report :
    (table keys : List ℕ) (modifier : ℕ) → length (fill_report table keys modifier).1 ≡ length keys
unfolding fill_report
length-fill_report table [] modifier = refl
length-fill_report table (k ∷ ks) modifier = ap suc (length-fill_report table ks _)

-- For six cells and a layout table, the keyboard report is 8 bytes: byte 0 has bit `n` exactly when
-- the mask's modifier byte has it or one of the cells is modifier key 0xE0 + n, byte 1 is 0, and
-- byte 2 + i is the usage of cell i, or 0 for a modifier key.
pub keyboard_report_bytes :
    (table keys : List ℕ) (mask n i : ℕ)
    → IsLayout table
    → length keys ≡ 6
    → n < 8
    → (length (keyboard_report table keys mask) ≡ 8)
      × ((bit n (get_or (keyboard_report table keys mask) 0 0) ≡ 1)
          ↔ ((bit n (mask_to_tusb_modifier mask) ≡ 1) ⊎ HasUsage table keys (0xe0 + n)))
      × (get_or (keyboard_report table keys mask) 1 0 ≡ 0)
      × (get_or (keyboard_report table keys mask) (suc (suc i)) 0
          ≡ (let u = usage_of table (get_or keys i 0) in if ltb u 0xe0 then u else 0))
unfolding keyboard_report
keyboard_report_bytes table keys mask n i l six h =
    let start = mask_to_tusb_modifier mask in
    (
      omega (arith, length-fill_report table keys start),
      fill_modifier table keys start n h,
      refl,
      fill_slot table keys start i l,
    )

-- The mouse report carries buttons, little-endian coordinates and the wheel byte, from which each
-- can be had back.
pub mouse_report_fields :
    (buttons hx hy : ℕ) (wheel : ℤ)
    → hx < 2 ^ 16
    → hy < 2 ^ 16
    → IsInt8 wheel
    → (let r = mouse_report buttons hx hy wheel in
        (length r ≡ 6)
        × (get_or r 0 0 ≡ buttons)
        × (get_or r 1 0 + get_or r 2 0 * 2 ^ 8 ≡ hx)
        × (get_or r 3 0 + get_or r 4 0 * 2 ^ 8 ≡ hy)
        × (int8_of_u8 (get_or r 5 0) ≡ wheel))
unfolding mouse_report
mouse_report_fields buttons hx hy wheel x y w = (
  refl,
  refl,
  omega (arith, and_byte hx),
  omega (arith, and_byte hy),
  int8_of_u8-u8_of_int wheel w,
)
