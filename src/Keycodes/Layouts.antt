-- ===== src/Keycodes/Layouts.antt =====
-- What the layout tables give for letters, and the range of every usage.
use esp32_deskflow.Prelude.{
  Bool-cases, ℕ, zero, suc, ◌+◌, ◌-◌, ◌≤◌, ◌<◌, ◌≡◌, ◌⊎◌, inl, inr, refl, List, [], ◌∷◌, Bool, true,
  ◌&&◌, leb, ◌==◌, arith, get_or, length, holds_below, holds_below_at, if◌then◌else◌,
}
use esp32_deskflow.Keycodes.{
  table_us, table_de, ext_tab, high_chars, keycodes_set_layout, barrier_key_to_hid, find_high_char,
}

-- The tables that `s_table` can point to.
abbrev pub IsLayout : List ℕ → Type 0
IsLayout t = (t ≡ table_us) ⊎ (t ≡ table_de)

all_le : ℕ → List ℕ → Bool
all_le n [] = true
all_le n (x ∷ xs) = leb x n && all_le n xs

all_le_sound : (n : ℕ) (xs : List ℕ) (i : ℕ) → all_le n xs ≡ true → get_or xs i 0 ≤ n
unfolding all_le
all_le_sound n [] i h = omega arith
all_le_sound n (x ∷ xs) zero h = ground arith
all_le_sound n (x ∷ xs) (suc i) h = ground (arith, all_le_sound n xs i)

us_le : (i : ℕ) → get_or table_us i 0 ≤ 0x38
us_le i = all_le_sound 0x38 table_us i (unfold all_le table_us in refl)

de_le : (i : ℕ) → get_or table_de i 0 ≤ 0x64
de_le i = all_le_sound 0x64 table_de i (unfold all_le table_de in refl)

ext_le : (i : ℕ) → get_or ext_tab i 0 ≤ 0xe7
ext_le i = all_le_sound 0xe7 ext_tab i (unfold all_le ext_tab in refl)

high_le : (key : ℕ) → find_high_char high_chars key ≤ 0x35
unfolding find_high_char high_chars
high_le key = ground arith

layout_le : (t : List ℕ) → IsLayout t → (i : ℕ) → get_or t i 0 ≤ 0x64
layout_le t (inl e) i = rw e (omega (arith, us_le i))
layout_le t (inr e) i = rw e (de_le i)

-- In either layout every key has a usage of at most 0xE7, the last usage of the keyboard page that
-- keycodes.h names; the layout table and `EXT_TAB` have 256 entries each.
pub usage_range :
    (t : List ℕ) (key : ℕ)
    → IsLayout t
    → (barrier_key_to_hid t key ≤ 0xe7) × (length t ≡ 256) × (length ext_tab ≡ 256)
unfolding barrier_key_to_hid
usage_range t key h = (
  ground (arith, layout_le t h key, ext_le (key - 0xef00), high_le key),
  elim h [ inl e ↦ rw e (unfold table_us in refl) | inr e ↦ rw e (unfold table_de in refl) ],
  unfold ext_tab in refl,
)

-- `keycodes_set_layout` selects the US table by 0, the German one by 1, and ignores any other
-- number; a table of a layout stays one.
pub set_layout_lem :
    (layout : ℕ) (t : List ℕ)
    → IsLayout t
    → (keycodes_set_layout 0 t ≡ table_us)
      × (keycodes_set_layout 1 t ≡ table_de)
      × (keycodes_set_layout (layout + 2) t ≡ t)
      × IsLayout (keycodes_set_layout layout t)
unfolding keycodes_set_layout
set_layout_lem layout t h = (refl, refl, ground arith, stays)
  where
    stays : IsLayout (keycodes_set_layout layout t)
    stays = elim (Bool-cases (leb 2 layout)) [
      | inl big ↦ rw big h
      | inr small ↦ rw small (elim (Bool-cases (layout == 0)) [
        | inl us ↦ rw us (inl refl)
        | inr de ↦ rw de (inr refl)
      ])
    ]

-- The letter at the other of the two places that the German layout swaps.
abbrev pub swap_y_z : ℕ → ℕ
swap_y_z i = if i == 24 then 25 else if i == 25 then 24 else i

letters_table :
    holds_below
      (λ i.
        (barrier_key_to_hid table_us (b'a' + i) == 4 + i)
        && (barrier_key_to_hid table_us (b'A' + i) == 4 + i)
        && (barrier_key_to_hid table_de (b'a' + i) == 4 + swap_y_z i)
        && (barrier_key_to_hid table_de (b'A' + i) == 4 + swap_y_z i))
      26
    ≡ true
unfolding holds_below barrier_key_to_hid table_us table_de
letters_table = refl

-- Both cases of the letter number `i` of the alphabet give usage 4 + i on the US layout; the German
-- layout is the same but for y and z, which it swaps.
pub letters :
    (i : ℕ)
    → i < 26
    → (barrier_key_to_hid table_us (b'a' + i) ≡ 4 + i)
      × (barrier_key_to_hid table_us (b'A' + i) ≡ 4 + i)
      × (barrier_key_to_hid table_de (b'a' + i) ≡ 4 + swap_y_z i)
      × (barrier_key_to_hid table_de (b'A' + i) ≡ 4 + swap_y_z i)
letters i h = ground (arith, holds_below_at _ 26 letters_table i h)
