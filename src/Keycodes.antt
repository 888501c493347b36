-- ===== src/Keycodes.antt =====
-- main/tusb/keycodes.c: from Deskflow keys and modifier masks to HID usages.
mod Tables
pub mod Layouts
pub mod Modifiers
pub mod Extended
mod Tests
unfoldable pub use Tables.{table_us, table_de, ext_tab, high_chars}
use esp32_deskflow.Prelude.{
  ℕ, ◌+◌, ◌-◌, List, [], ◌∷◌, ◌&&◌, not, ltb, leb, ◌==◌, if◌then◌else◌, get_or, bit_and, bit_or,
}

abbrev pub barrier_key_left_tab : ℕ
barrier_key_left_tab = 0xee20

abbrev pub barrier_ext_base : ℕ
barrier_ext_base = 0xef00

abbrev pub hid_key_tab : ℕ
hid_key_tab = 0x2b

-- `keycodes_set_layout`: the argument and the result after `layout` are the table `s_table`.
unfoldable pub keycodes_set_layout : ℕ → List ℕ → List ℕ
keycodes_set_layout layout s_table =
    if leb 2 layout then s_table else if layout == 0 then table_us else table_de

-- The loop over `HIGH_CHARS`.
unfoldable pub find_high_char : List (ℕ × ℕ) → ℕ → ℕ
find_high_char [] key = 0
find_high_char ((ch, hid) ∷ rest) key = if ch == key then hid else find_high_char rest key

-- `s_table` is the table that the layout selects.
unfoldable pub barrier_key_to_hid : List ℕ → ℕ → ℕ
barrier_key_to_hid s_table key =
    if key == barrier_key_left_tab
    then hid_key_tab
    else if ltb key 0x100
    then get_or s_table key 0
    else if leb barrier_ext_base key && leb key (barrier_ext_base + 255)
    then get_or ext_tab (key - barrier_ext_base) 0
    else find_high_char high_chars key

-- `if (df_mask & flag) modifier |= bit;`
unfoldable pub add_modifier : ℕ → ℕ → ℕ → ℕ → ℕ
add_modifier df_mask flag bit modifier =
    if not (bit_and df_mask flag == 0) then bit_or modifier bit else modifier

unfoldable pub mask_to_tusb_modifier : ℕ → ℕ
mask_to_tusb_modifier df_mask =
    let modifier = add_modifier df_mask 0x01 0x02 0 in
    let modifier = add_modifier df_mask 0x02 0x01 modifier in
    let modifier = add_modifier df_mask 0x04 0x04 modifier in
    let modifier = add_modifier df_mask 0x08 0x40 modifier in
    let modifier = add_modifier df_mask 0x10 0x08 modifier in
    add_modifier df_mask 0x20 0x40 modifier
