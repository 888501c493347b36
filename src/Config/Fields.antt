-- ===== src/Config/Fields.antt =====
-- One field of the settings file of main/config/config.c, written and read.
use esp32_deskflow.Prelude.{
  ℕ, zero, suc, ◌^◌, ◌≤◌, ◌<◌, ◌≡◌, refl, ap, ◌∙◌, arith, inl, inr, ℤ, pos, negsuc, IsInt16, Bool,
  true, false, not, ◌&&◌, List, [], ◌∷◌, ◌++◌, length, Bool-cases, some, codes,
}
use esp32_deskflow.Esp.{done}
use esp32_deskflow.Config.{Config}
use esp32_deskflow.Config.Text.{
  Directive, space, int, chars, Value, number, text, fscanf, print_u, print_d, is_digit, is_int,
  member, span_not, assigned, skip_space, is_space, read_int,
}
use esp32_deskflow.Config.Numbers.{read_int-print_u, read_int-print_d}

-- A text without any of the characters `stop`.
abbrev pub free_of : List ℕ → List ℕ → Bool
free_of stop [] = true
free_of stop (c ∷ cs) = not (member c stop) && free_of stop cs

-- The configurations that the settings file can carry: strings that fit their fields, are not empty
-- and have no quotation mark, and numbers of their C types.
pub record IsConfig (cfg : Config) : Type 0 where
  pub server_fits : length cfg.server ≤ 63
  pub server_some : 0 < length cfg.server
  pub server_plain : free_of (codes "\"") cfg.server ≡ true
  pub name_fits : length cfg.device_name ≤ 31
  pub name_some : 0 < length cfg.device_name
  pub name_plain : free_of (codes "\"") cfg.device_name ≡ true
  pub port_range : cfg.port < 2 ^ 16
  pub jiggle_range : cfg.jiggle_interval < 2 ^ 16
  pub width_range : cfg.screen_width < 2 ^ 16
  pub height_range : cfg.screen_height < 2 ^ 16
  pub scaling_range : cfg.scaling < 2 ^ 16
  pub layout_range : cfg.keyboard_layout < 2 ^ 8
  pub vlan_range : IsInt16 cfg.vlan_id

-- Something follows, and it is not read along.
abbrev pub ends : (ℕ → Bool) → List ℕ → Bool
ends stops [] = false
ends stops (c ∷ cs) = stops c

span_not_stops :
    (n : ℕ) (stop s : List ℕ) (c : ℕ) (cs : List ℕ)
    → length s ≤ n
    → free_of stop s ≡ true
    → member c stop ≡ true
    → span_not n stop (s ++ c ∷ cs) ≡ (s, c ∷ cs)
span_not_stops zero stop [] c cs h free stops = refl
span_not_stops (suc n) stop [] c cs h free stops = rw stops refl
span_not_stops zero stop (b ∷ s) c cs h free stops = absurd (omega arith)
span_not_stops (suc n) stop (b ∷ s) c cs h free stops =
    let other : member b stop ≡ false = ground arith in
    let rest = span_not_stops n stop s c cs (omega arith) (ground arith) stops in
    rw (other, rest) refl

skip_space_twice : (l : List ℕ) → skip_space (skip_space l) ≡ skip_space l
skip_space_twice [] = refl
skip_space_twice (c ∷ cs) = elim (Bool-cases (is_space c)) [
  | inl blank ↦ rw blank (skip_space_twice cs)
  | inr shown ↦ rw shown (rw shown refl)
]

-- One field each: a number behind white space, and a string.
number_step :
    (ds : List Directive) (l tail : List ℕ) (values : List Value) (v : ℤ)
    → read_int (skip_space l) ≡ some (v, tail)
    → is_int v ≡ true
    → fscanf ds tail ≡ done values
    → fscanf (space ∷ int ∷ ds) l ≡ done (number v ∷ values)
unfolding fscanf
number_step ds l tail values v read inside rest =
    rw (skip_space_twice l, fscanf, read, inside, rest) refl

pub unsigned_step :
    (ds : List Directive) (n : ℕ) (tail : List ℕ) (values : List Value)
    → n < 2 ^ 16
    → ends (λ c. not (is_digit c)) tail ≡ true
    → fscanf ds tail ≡ done values
    → fscanf (space ∷ int ∷ ds) (print_u n ++ tail) ≡ done (number (pos n) ∷ values)
unsigned_step ds n [] values small stop rest = absurd (ground arith)
unsigned_step ds n (c ∷ cs) values small stop rest =
    number_step ds (print_u n ++ c ∷ cs) (c ∷ cs) values (pos n)
      (read_int-print_u n c cs (omega arith) (ground arith)) (ground arith) rest

pub signed_step :
    (ds : List Directive) (v : ℤ) (tail : List ℕ) (values : List Value)
    → IsInt16 v
    → ends (λ c. not (is_digit c)) tail ≡ true
    → fscanf ds tail ≡ done values
    → fscanf (space ∷ int ∷ ds) (print_d v ++ tail) ≡ done (number v ∷ values)
signed_step ds v [] values small stop rest = absurd (ground arith)
signed_step ds (pos n) (c ∷ cs) values small stop rest =
    number_step ds (print_d (pos n) ++ c ∷ cs) (c ∷ cs) values (pos n)
      (read_int-print_d (pos n) c cs (omega arith) (ground arith)) (ground arith) rest
signed_step ds (negsuc n) (c ∷ cs) values small stop rest =
    number_step ds (print_d (negsuc n) ++ c ∷ cs) (c ∷ cs) values (negsuc n)
      (read_int-print_d (negsuc n) c cs (omega arith) (ground arith)) (ground arith) rest

pub string_step :
    (ds : List Directive) (n : ℕ) (stop s tail : List ℕ) (values : List Value)
    → length s ≤ n
    → 0 < length s
    → free_of stop s ≡ true
    → ends (λ c. member c stop) tail ≡ true
    → fscanf ds tail ≡ done values
    → fscanf (chars n stop ∷ ds) (s ++ tail) ≡ done (text s ∷ values)
unfolding fscanf
string_step ds n stop s [] values fits some_char free stops rest = absurd (ground arith)
string_step ds n stop [] (c ∷ cs) values fits some_char free stops rest = absurd (omega arith)
string_step ds n stop (b ∷ s) (c ∷ cs) values fits some_char free stops rest =
    ap (λ p. assigned p.0 (fscanf ds p.1)) (span_not_stops n stop (b ∷ s) c cs fits free stops)
    ∙ ap (λ r. assigned (b ∷ s) r) rest
