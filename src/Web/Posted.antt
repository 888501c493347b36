-- ===== src/Web/Posted.antt =====
-- What a posted text of main/web/web_server.c can make of the configuration.
use esp32_deskflow.Prelude.{
  ℕ, ◌^◌, ◌<◌, ◌≡◌, refl, arith, inl, inr, ℤ, u8, u16, u16_of_int, int16_of_u16, true, false, ltb,
  ◌==◌, List, [], ◌∷◌, length, Option, none, some, codes, Bool-cases, ltb→lt,
}
use esp32_deskflow.Config.{Config}
use esp32_deskflow.Config.Fields.{free_of}
use esp32_deskflow.Web.{
  behind, until, strtoul, strtol, prepended, fitting, string_at, number_at, is_vlan, vlan_at,
  posted,
}

-- What main/network and main/barrier take for granted of the configuration.
pub record IsUsable (cfg : Config) : Type 0 where
  pub server_fits : length cfg.server < 64
  pub server_plain : free_of (codes "\"") cfg.server ≡ true
  pub name_fits : length cfg.device_name < 32
  pub name_plain : free_of (codes "\"") cfg.device_name ≡ true
  pub port_range : cfg.port < 2 ^ 16
  pub jiggle_range : cfg.jiggle_interval < 2 ^ 16
  pub width_range : cfg.screen_width < 2 ^ 16
  pub height_range : cfg.screen_height < 2 ^ 16
  pub scaling_range : cfg.scaling < 2 ^ 16
  pub layout_range : cfg.keyboard_layout < 2 ^ 8
  pub vlan_valid : is_vlan cfg.vlan_id ≡ true

-- The texts that are quoted have no quotation mark.
abbrev Quoted : Option (List ℕ) → Type 0
Quoted none = Unit
Quoted (some value) = free_of (codes "\"") value ≡ true

prepended-Quoted :
    (b : ℕ) (o : Option (List ℕ)) → (b == 34) ≡ false → Quoted o → Quoted (prepended b o)
prepended-Quoted b none other q = tt
prepended-Quoted b (some front) other q = rw other q

until-Quoted : (s : List ℕ) → Quoted (until 34 s)
until-Quoted [] = tt
until-Quoted (b ∷ bs) = elim (Bool-cases (b == 34)) [
  | inl mark ↦ rw mark refl
  | inr other ↦ rw other (prepended-Quoted b (until 34 bs) other (until-Quoted bs))
]

-- A string that fits and has no quotation mark.
abbrev pub Plain : ℕ → List ℕ → Type 0
Plain size s = (length s < size) × (free_of (codes "\"") s ≡ true)

fitting-Plain :
    (size : ℕ) (old : List ℕ) (o : Option (List ℕ))
    → Plain size old
    → Quoted o
    → Plain size (fitting size old o)
fitting-Plain size old none plain q = plain
fitting-Plain size old (some value) plain q = elim (Bool-cases (ltb (length value) size)) [
  | inl fits ↦ rw fits (ltb→lt (length value) size fits, q)
  | inr long ↦ rw long plain
]

string_at-Plain :
    (size : ℕ) (old : List ℕ) (o : Option (List ℕ))
    → Plain size old
    → Plain size (string_at size old o)
string_at-Plain size old none plain = plain
string_at-Plain size old (some s) plain = fitting-Plain size old (until 34 s) plain (until-Quoted s)

number_at_lt :
    (cast : ℕ → ℕ) (bound old : ℕ) (o : Option (List ℕ))
    → old < bound
    → ((n : ℕ) → cast n < bound)
    → number_at cast old o < bound
number_at_lt cast bound old none small casts = small
number_at_lt cast bound old (some s) small casts = casts (strtoul s)

is_vlan-vlan_at :
    (old : ℤ) (o : Option (List ℕ)) → is_vlan old ≡ true → is_vlan (vlan_at old o) ≡ true
is_vlan-vlan_at old none valid = valid
is_vlan-vlan_at old (some s) valid =
    elim (Bool-cases (is_vlan (int16_of_u16 (u16_of_int (strtol s))))) [
      | inl good ↦ rw good good
      | inr bad ↦ rw bad valid
    ]

-- Whatever is posted, a usable configuration stays usable: its strings fit and have no quotation mark, its
-- numbers are in the ranges of their types, and its VLAN number is -1 or from 1 to 4094.
pub posted-IsUsable : (buf : List ℕ) (cfg : Config) → IsUsable cfg → IsUsable (posted buf cfg)
unfolding posted
posted-IsUsable buf cfg w =
    let server =
      string_at-Plain 64 cfg.server (behind (codes "\"server\":\"") buf)
        (w.server_fits, w.server_plain) in
    let name =
      string_at-Plain 32 cfg.device_name (behind (codes "\"device_name\":\"") buf)
        (w.name_fits, w.name_plain) in
    let cast16 : (n : ℕ) → u16 n < 2 ^ 16 = λ n. omega arith in
    record {
      server_fits = server.0;
      server_plain = server.1;
      name_fits = name.0;
      name_plain = name.1;
      port_range =
          number_at_lt u16 (2 ^ 16) cfg.port (behind (codes "\"port\":") buf) w.port_range cast16;
      jiggle_range =
          number_at_lt u16 (2 ^ 16) cfg.jiggle_interval (behind (codes "\"jiggle_interval\":") buf)
            w.jiggle_range cast16;
      width_range =
          number_at_lt u16 (2 ^ 16) cfg.screen_width (behind (codes "\"screen_width\":") buf)
            w.width_range cast16;
      height_range =
          number_at_lt u16 (2 ^ 16) cfg.screen_height (behind (codes "\"screen_height\":") buf)
            w.height_range cast16;
      scaling_range =
          number_at_lt u16 (2 ^ 16) cfg.scaling (behind (codes "\"scaling\":") buf) w.scaling_range
            cast16;
      layout_range =
          number_at_lt u8 (2 ^ 8) cfg.keyboard_layout (behind (codes "\"keyboard_layout\":") buf)
            w.layout_range (λ n. omega arith);
      vlan_valid = is_vlan-vlan_at cfg.vlan_id (behind (codes "\"vlan_id\":") buf) w.vlan_valid;
    }
