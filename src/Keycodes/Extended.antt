-- ===== src/Keycodes/Extended.antt =====
-- The keys from 0xEF00 on, which Deskflow numbers like the X11 keysyms from 0xFF00 on.
use esp32_deskflow.Prelude.{
  ◌≢◌, ℕ, ◌+◌, ◌-◌, ◌<◌, ◌≡◌, refl, List, true, ltb, ◌==◌, arith, holds_below, holds_below_at,
  ==_iff, if◌then◌else◌,
}
use esp32_deskflow.Keycodes.{ext_tab, barrier_key_to_hid}

-- The HID usage of the function key F(n + 1) (`HID_KEY_F1` to `HID_KEY_F24` of keycodes.h).
abbrev pub function_key : ℕ → ℕ
function_key n = if ltb n 12 then 0x3a + n else 0x68 + (n - 12)

function_keys_table :
    (t : List ℕ)
    → holds_below (λ i. barrier_key_to_hid t (0xefbe + i) == function_key (i + 8)) 16 ≡ true
unfolding holds_below barrier_key_to_hid ext_tab
function_keys_table t = refl

shifted_ne : (i : ℕ) → function_key (i + 8) ≢ function_key i
shifted_ne i = ground arith

-- The keysym of F1 is 0xFFBE. On either layout key 0xEFBE + i, for i < 16, gives the usage of
-- F(i + 9), eight function keys on, and not that of F(i + 1).
pub function_keys_shifted :
    (t : List ℕ) (i : ℕ)
    → i < 16
    → (barrier_key_to_hid t (0xefbe + i) ≡ function_key (i + 8))
      × (barrier_key_to_hid t (0xefbe + i) ≢ function_key i)
function_keys_shifted t i h =
    let e : barrier_key_to_hid t (0xefbe + i) ≡ function_key (i + 8) =
      (==_iff _ _).0 (holds_below_at _ 16 (function_keys_table t) i h) in
    (e, rw e (shifted_ne i))

-- 0xFFFF is the keysym of Delete, 0xFFE4 that of the right Control key.
delete_unmapped :
    (t : List ℕ) → (barrier_key_to_hid t 0xefff ≡ 0) × (barrier_key_to_hid t 0xefe4 ≡ 0xe7)
unfolding barrier_key_to_hid ext_tab
delete_unmapped t = (refl, refl)
