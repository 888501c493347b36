-- ===== src/Config/RoundTrip.antt =====
-- What config_save of main/config/config.c writes, config_load reads.
use esp32_deskflow.Prelude.{
  ℕ, ◌≡◌, refl, ap, ◌∙◌, arith, pos, u16_of_int, int16_of_u16-u16_of_int, u8_of_int, memcmp_eq,
  Bool, true, false, List, [], ◌∷◌, ◌++◌, if◌then◌else◌, some, codes, drop,
}
use esp32_deskflow.Esp.{esp_ok, done, ◌>>=◌}
use esp32_deskflow.Keycodes.{keycodes_set_layout}
use esp32_deskflow.Config.{
  Config, Store, config_defaults, settings_text, settings_format, config_of_values, config_save,
  config_load,
}
use esp32_deskflow.Config.Text.{
  Directive, space, int, chars, Value, number, text, fscanf, print_u, print_d, member, literal,
}
use esp32_deskflow.Config.Fields.{IsConfig, ends, unsigned_step, signed_step, string_step}

-- The values that stand in the file of a configuration.
abbrev values_of : Config → List Value
values_of cfg =
    text cfg.server
    ∷ number (pos cfg.port)
    ∷ text cfg.device_name
    ∷ number (pos cfg.screen_width)
    ∷ number (pos cfg.screen_height)
    ∷ number (pos cfg.scaling)
    ∷ number (pos cfg.jiggle_interval)
    ∷ text (if cfg.keep_awake then codes "true" else codes "false")
    ∷ number (pos cfg.keyboard_layout)
    ∷ number cfg.vlan_id
    ∷ []

keep_step :
    (ds : List Directive) (keep : Bool) (tail : List ℕ) (values : List Value)
    → ends (λ c. member c (codes ",\n")) tail ≡ true
    → fscanf ds tail ≡ done values
    → fscanf
        (space ∷ chars 7 (codes ",\n") ∷ ds)
        ((if keep then codes "true" else codes "false") ++ tail)
      ≡ done (text (if keep then codes "true" else codes "false") ∷ values)
unfolding fscanf
keep_step ds true tail values stops rest =
    string_step ds 7 (codes ",\n") (codes "true") tail values (omega arith) (omega arith) refl stops
      rest
keep_step ds false tail values stops rest =
    string_step ds 7 (codes ",\n") (codes "false") tail values (omega arith) (omega arith) refl
      stops rest

-- The format and the text from each field on.
abbrev vlan_format : List Directive
vlan_format = literal ",\n \"vlan_id\": " ++ (int ∷ literal "}")

abbrev vlan_text : Config → List ℕ
vlan_text cfg = codes ",\n \"vlan_id\": " ++ (print_d cfg.vlan_id ++ codes "}")

abbrev layout_format : List Directive
layout_format = literal ",\n \"keyboard_layout\": " ++ (int ∷ vlan_format)

abbrev layout_text : Config → List ℕ
layout_text cfg =
    codes ",\n \"keyboard_layout\": " ++ (print_u cfg.keyboard_layout ++ vlan_text cfg)

abbrev keep_format : List Directive
keep_format = literal ",\n \"keep_awake\": " ++ (chars 7 (codes ",\n") ∷ layout_format)

abbrev keep_text : Config → List ℕ
keep_text cfg =
    codes ",\n \"keep_awake\": "
    ++ ((if cfg.keep_awake then codes "true" else codes "false") ++ layout_text cfg)

abbrev jiggle_format : List Directive
jiggle_format = literal ",\n \"jiggle_interval\": " ++ (int ∷ keep_format)

abbrev jiggle_text : Config → List ℕ
jiggle_text cfg =
    codes ",\n \"jiggle_interval\": " ++ (print_u cfg.jiggle_interval ++ keep_text cfg)

abbrev scaling_format : List Directive
scaling_format = literal ",\n \"scaling\": " ++ (int ∷ jiggle_format)

abbrev scaling_text : Config → List ℕ
scaling_text cfg = codes ",\n \"scaling\": " ++ (print_u cfg.scaling ++ jiggle_text cfg)

abbrev height_format : List Directive
height_format = literal ",\n \"screen_height\": " ++ (int ∷ scaling_format)

abbrev height_text : Config → List ℕ
height_text cfg = codes ",\n \"screen_height\": " ++ (print_u cfg.screen_height ++ scaling_text cfg)

abbrev width_format : List Directive
width_format = literal "\",\n \"screen_width\": " ++ (int ∷ height_format)

abbrev width_text : Config → List ℕ
width_text cfg = codes "\",\n \"screen_width\": " ++ (print_u cfg.screen_width ++ height_text cfg)

abbrev name_format : List Directive
name_format = literal ",\n \"device_name\": \"" ++ (chars 31 (codes "\"") ∷ width_format)

abbrev name_text : Config → List ℕ
name_text cfg = codes ",\n \"device_name\": \"" ++ (cfg.device_name ++ width_text cfg)

abbrev port_format : List Directive
port_format = literal "\",\n \"port\": " ++ (int ∷ name_format)

abbrev port_text : Config → List ℕ
port_text cfg = codes "\",\n \"port\": " ++ (print_u cfg.port ++ name_text cfg)

-- The file of a configuration is read to its end.
settings_read :
    (cfg : Config)
    → IsConfig cfg
    → fscanf settings_format (settings_text cfg) ≡ done (values_of cfg)
unfolding fscanf settings_text
settings_read cfg w =
    let vlan_read =
      signed_step (literal "}") cfg.vlan_id (codes "}") (drop 10 (values_of cfg)) w.vlan_range refl
        refl in
    let layout_read =
      unsigned_step vlan_format cfg.keyboard_layout (vlan_text cfg) (drop 9 (values_of cfg))
        (omega (arith, w.layout_range)) refl vlan_read in
    let keep_read =
      keep_step layout_format cfg.keep_awake (layout_text cfg) (drop 8 (values_of cfg)) refl
        layout_read in
    let jiggle_read =
      unsigned_step keep_format cfg.jiggle_interval (keep_text cfg) (drop 7 (values_of cfg))
        w.jiggle_range refl keep_read in
    let scaling_read =
      unsigned_step jiggle_format cfg.scaling (jiggle_text cfg) (drop 6 (values_of cfg))
        w.scaling_range refl jiggle_read in
    let height_read =
      unsigned_step scaling_format cfg.screen_height (scaling_text cfg) (drop 5 (values_of cfg))
        w.height_range refl scaling_read in
    let width_read =
      unsigned_step height_format cfg.screen_width (height_text cfg) (drop 4 (values_of cfg))
        w.width_range refl height_read in
    let name_read =
      string_step width_format 31 (codes "\"") cfg.device_name (width_text cfg)
        (drop 3 (values_of cfg)) w.name_fits w.name_some w.name_plain refl width_read in
    let port_read =
      unsigned_step name_format cfg.port (name_text cfg) (drop 2 (values_of cfg)) w.port_range refl
        name_read in
    string_step port_format 63 (codes "\"") cfg.server (port_text cfg) (drop 1 (values_of cfg))
      w.server_fits w.server_some w.server_plain refl port_read

keep_back :
    (keep : Bool) → memcmp_eq (if keep then codes "true" else codes "false") (codes "true") ≡ keep
keep_back true = refl
keep_back false = refl

-- The values of a valid configuration make it up again.
values_back : (cfg : Config) → IsConfig cfg → config_of_values (values_of cfg) config_defaults ≡ cfg
unfolding config_of_values
values_back cfg w =
    let port : u16_of_int (pos cfg.port) ≡ cfg.port = omega arith in
    let jiggle : u16_of_int (pos cfg.jiggle_interval) ≡ cfg.jiggle_interval = omega arith in
    let width : u16_of_int (pos cfg.screen_width) ≡ cfg.screen_width = omega arith in
    let height : u16_of_int (pos cfg.screen_height) ≡ cfg.screen_height = omega arith in
    let scaling : u16_of_int (pos cfg.scaling) ≡ cfg.scaling = omega arith in
    let layout : u8_of_int (pos cfg.keyboard_layout) ≡ cfg.keyboard_layout = omega arith in
    let vlan = int16_of_u16-u16_of_int cfg.vlan_id w.vlan_range in
    let keep = keep_back cfg.keep_awake in
    rw (port, jiggle, width, height, scaling, layout, vlan, keep) refl

-- A valid configuration that config_save wrote to a mounted stick is the one that config_load takes,
-- whatever was configured before, and the key table is selected by its layout.
pub load-save :
    (cfg old : Config) (table : List ℕ) (store : Store)
    → IsConfig cfg
    → config_load true
        (record (config_save true true cfg store).1 { config = old; s_table = table })
      ≡ done (
        esp_ok,
        record {
          config = cfg;
          s_table = keycodes_set_layout cfg.keyboard_layout table;
          file = some (settings_text cfg);
        },
      )
unfolding config_load config_save
load-save cfg old table store w =
    ap
      (λ o. o >>= λ values.
        let read = config_of_values values config_defaults in
        done (
          esp_ok,
          record {
            config = read;
            s_table = keycodes_set_layout read.keyboard_layout table;
            file = some (settings_text cfg);
          },
        ))
      (settings_read cfg w)
    ∙ ap
        (λ (read : Config). done (
          esp_ok,
          record {
            config = read;
            s_table = keycodes_set_layout read.keyboard_layout table;
            file = some (settings_text cfg);
          },
        ))
        (values_back cfg w)

-- Without a server name, config_load takes the default for every field of what config_save wrote.
pub empty_server_lost :
    (cfg old : Config) (table : List ℕ) (store : Store)
    → cfg.server ≡ []
    → config_load true
        (record (config_save true true cfg store).1 { config = old; s_table = table })
      ≡ done (
        esp_ok,
        record {
          config = config_defaults;
          s_table = keycodes_set_layout 0 table;
          file = some (settings_text cfg);
        },
      )
unfolding config_load config_save fscanf settings_text config_of_values
empty_server_lost cfg old table store empty = rw empty refl
