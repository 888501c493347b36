-- ===== src/Web/Restored.antt =====
-- The settings that settings_get_handler of main/web/web_server.c sends, posted back.

use esp32_deskflow.Prelude.{
  ℕ, zero, suc, ◌+◌, ◌-◌, ◌/◌, ◌%◌, ◌^◌, ◌<◌, ◌==◌, ◌≡◌, refl, ap, ◌∙◌, arith, inl, inr, ℤ, pos,
  negsuc, u8, u16, u16_of_int, int16_of_u16, min, Bool, true, false, not, ltb, List, [], ◌∷◌, ◌++◌,
  length, if◌then◌else◌, Option, some, codes, Bool-cases, lt→ltb,
}
use esp32_deskflow.Config.{Config}
use esp32_deskflow.Config.Text.{decimal, print_u, print_d, is_digit}
use esp32_deskflow.Config.Numbers.{read_int-print_u, read_int-print_d}
use esp32_deskflow.Config.Fields.{free_of}
use esp32_deskflow.Web.{
  behind, strtoul, strtol, unsigned_of, signed_of, string_at, number_at, is_vlan, vlan_at, posted,
}
use esp32_deskflow.Web.Posted.{IsUsable}
use esp32_deskflow.Web.Format
use esp32_deskflow.Web.Format.{Pieces}
use esp32_deskflow.Web.Current.{pieces, settings_json}
use esp32_deskflow.Web.Searched.{until-plain}
use esp32_deskflow.Web.Keys.{
  IsQuotable, server_found, port_found, device_name_found, screen_width_found, screen_height_found,
  scaling_found, jiggle_interval_found, keep_awake_found, keyboard_layout_found, vlan_id_found,
}

pub free_of-append :
    (stop s t : List ℕ)
    → free_of stop s ≡ true
    → free_of stop t ≡ true
    → free_of stop (s ++ t) ≡ true
free_of-append stop [] t hs ht = ht
free_of-append stop (c ∷ s) t hs ht =
    let rest = free_of-append stop s t (ground arith) ht in ground arith

-- A character in front of the digits is not printed for a number.
pub free_of-decimal : (c digits n : ℕ) → c < 48 → free_of (c ∷ []) (decimal digits n) ≡ true
unfolding decimal
free_of-decimal c zero n h = refl
free_of-decimal c (suc digits) n h = elim (Bool-cases (ltb n 10)) [
  | inl one ↦ rw one (ground arith)
  | inr more ↦ rw more (
      free_of-append (c ∷ []) (decimal digits (n / 10)) ((48 + n % 10) ∷ [])
        (free_of-decimal c digits (n / 10) h) (ground arith))
]

pub free_of-print_d : (c : ℕ) (z : ℤ) → c < 45 → free_of (c ∷ []) (print_d z) ≡ true
free_of-print_d c (pos n) h = free_of-decimal c 10 n (omega arith)
free_of-print_d c (negsuc n) h =
    let digits = free_of-decimal c 10 (suc n) (omega arith) in ground arith

strtoul-print_u :
    (n c : ℕ) (cs : List ℕ) → n < 2 ^ 16 → is_digit c ≡ false → strtoul (print_u n ++ c ∷ cs) ≡ n
strtoul-print_u n c cs h stop =
    let read = read_int-print_u n c cs (omega arith) stop in
    let small : min n (2 ^ 32 - 1) ≡ n = omega arith in ap unsigned_of read ∙ small

-- A VLAN number is read back.
vlan_at-print_d :
    (old v : ℤ) (c : ℕ) (cs : List ℕ)
    → is_vlan v ≡ true
    → is_digit c ≡ false
    → vlan_at old (some (print_d v ++ c ∷ cs)) ≡ v
vlan_at-print_d old (pos n) c cs valid stop =
    let small : n < 2 ^ 12 = ground arith in
    let read = read_int-print_d (pos n) c cs (omega arith) stop in
    let whole : min n (2 ^ 31 - 1) ≡ n = omega arith in
    let cast : int16_of_u16 (u16_of_int (pos n)) ≡ pos n = ground arith in
    let vid : int16_of_u16 (u16_of_int (strtol (print_d (pos n) ++ c ∷ cs))) ≡ pos n =
      ap (λ z. int16_of_u16 (u16_of_int z)) (ap signed_of read ∙ ap pos whole) ∙ cast in
    ap (λ z. if is_vlan z then z else old) vid ∙ (rw valid refl)
vlan_at-print_d old (negsuc n) c cs valid stop =
    let small : n ≡ 0 = ground arith in
    let read = read_int-print_d (negsuc n) c cs (omega arith) stop in
    let whole : min n (2 ^ 31 - 1) ≡ n = omega arith in
    let cast : int16_of_u16 (u16_of_int (negsuc n)) ≡ negsuc n = ground arith in
    let vid : int16_of_u16 (u16_of_int (strtol (print_d (negsuc n) ++ c ∷ cs))) ≡ negsuc n =
      ap (λ z. int16_of_u16 (u16_of_int z)) (ap signed_of read ∙ ap negsuc whole) ∙ cast in
    ap (λ z. if is_vlan z then z else old) vid ∙ (rw valid refl)

fitting_whole :
    (size : ℕ) (old s rest : List ℕ)
    → length s < size
    → free_of (codes "\"") s ≡ true
    → string_at size old (some (s ++ 34 ∷ rest)) ≡ s
fitting_whole size old s rest fits plain =
    rw (until-plain s rest plain, lt→ltb (length s) size fits) refl

keep_awake_read :
    (b : Bool) (cs : List ℕ)
    → not (strtoul ((if b then codes "1" else codes "0") ++ 44 ∷ cs) == 0) ≡ b
keep_awake_read true cs = refl
keep_awake_read false cs = refl

pieces-IsQuotable : (cfg : Config) → IsUsable cfg → IsQuotable (pieces cfg)
pieces-IsQuotable cfg w = record {
  server = w.server_plain;
  port = free_of-decimal 34 10 cfg.port (omega arith);
  device_name = w.name_plain;
  screen_width = free_of-decimal 34 10 cfg.screen_width (omega arith);
  screen_height = free_of-decimal 34 10 cfg.screen_height (omega arith);
  scaling = free_of-decimal 34 10 cfg.scaling (omega arith);
  jiggle_interval = free_of-decimal 34 10 cfg.jiggle_interval (omega arith);
  keep_awake = ground arith;
  keyboard_layout = free_of-decimal 34 10 cfg.keyboard_layout (omega arith);
}

-- A number is read from the text that is found.
number_at-print_u :
    (cast : ℕ → ℕ) (old n c : ℕ) (cs : List ℕ) (o : Option (List ℕ))
    → o ≡ some (print_u n ++ c ∷ cs)
    → n < 2 ^ 16
    → is_digit c ≡ false
    → cast n ≡ n
    → number_at cast old o ≡ n
number_at-print_u cast old n c cs o found h stop same =
    ap (number_at cast old) found ∙ ap cast (strtoul-print_u n c cs h stop) ∙ same

-- Posted as it was sent, the text gives the configuration back, whatever the present one is.
pub posted-settings_json : (cfg old : Config) → IsUsable cfg → posted (settings_json cfg) old ≡ cfg
unfolding posted settings_json
posted-settings_json cfg old w =
    let p = pieces cfg in
    let q = pieces-IsQuotable cfg w in
    let server =
      ap (string_at 64 old.server) (server_found p q)
      ∙ fitting_whole 64 old.server cfg.server (codes ",\"port\":" ++ Format.port p) w.server_fits
          w.server_plain in
    let name =
      ap (string_at 32 old.device_name) (device_name_found p q)
      ∙ fitting_whole 32 old.device_name cfg.device_name
          (codes ",\"screen_width\":" ++ Format.screen_width p) w.name_fits w.name_plain in
    let keep =
      ap (number_at (λ n. not (n == 0)) old.keep_awake) (keep_awake_found p q)
      ∙ keep_awake_read cfg.keep_awake (codes "\"keyboard_layout\":" ++ Format.keyboard_layout p) in
    let port =
      number_at-print_u u16 old.port cfg.port 44
        (codes "\"device_name\":\"" ++ Format.device_name p)
        (behind (codes "\"port\":") (Format.whole p)) (port_found p q) (omega (arith, w.port_range))
        refl (omega (arith, w.port_range)) in
    let width =
      number_at-print_u u16 old.screen_width cfg.screen_width 44
        (codes "\"screen_height\":" ++ Format.screen_height p)
        (behind (codes "\"screen_width\":") (Format.whole p)) (screen_width_found p q)
        (omega (arith, w.width_range)) refl (omega (arith, w.width_range)) in
    let height =
      number_at-print_u u16 old.screen_height cfg.screen_height 44
        (codes "\"scaling\":" ++ Format.scaling p)
        (behind (codes "\"screen_height\":") (Format.whole p)) (screen_height_found p q)
        (omega (arith, w.height_range)) refl (omega (arith, w.height_range)) in
    let scaling =
      number_at-print_u u16 old.scaling cfg.scaling 44
        (codes "\"jiggle_interval\":" ++ Format.jiggle_interval p)
        (behind (codes "\"scaling\":") (Format.whole p)) (scaling_found p q)
        (omega (arith, w.scaling_range)) refl (omega (arith, w.scaling_range)) in
    let jiggle =
      number_at-print_u u16 old.jiggle_interval cfg.jiggle_interval 44
        (codes "\"keep_awake\":" ++ Format.keep_awake p)
        (behind (codes "\"jiggle_interval\":") (Format.whole p)) (jiggle_interval_found p q)
        (omega (arith, w.jiggle_range)) refl (omega (arith, w.jiggle_range)) in
    let layout =
      number_at-print_u u8 old.keyboard_layout cfg.keyboard_layout 44
        (codes "\"vlan_id\":" ++ Format.vlan_id p)
        (behind (codes "\"keyboard_layout\":") (Format.whole p)) (keyboard_layout_found p q)
        (omega (arith, w.layout_range)) refl (omega (arith, w.layout_range)) in
    let vlan =
      ap (vlan_at old.vlan_id) (vlan_id_found p q)
      ∙ vlan_at-print_d old.vlan_id cfg.vlan_id 125 [] w.vlan_valid refl in
    λ i. record {
      server = server i;
      port = port i;
      device_name = name i;
      keep_awake = keep i;
      jiggle_interval = jiggle i;
      screen_width = width i;
      screen_height = height i;
      scaling = scaling i;
      keyboard_layout = layout i;
      vlan_id = vlan i;
    }
