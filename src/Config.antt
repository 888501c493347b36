-- ===== src/Config.antt =====
-- The configuration store of main/config: the settings file on the USB stick and the running
-- configuration.
pub mod Text
pub mod Certs
pub mod Numbers
pub mod Fields
pub mod RoundTrip
mod Overflow
mod Scanned
mod Loaded
mod Tests
use esp32_deskflow.Prelude.{
  ℕ, ℤ, pos, negsuc, u16_of_int, u8_of_int, int16_of_u16, Bool, true, false, List, [], ◌∷◌, ◌++◌,
  ◌==◌, if◌then◌else◌, memcmp_eq, Option, none, some, codes,
}
use esp32_deskflow.Esp.{EspErr, esp_ok, esp_fail, esp_err_not_found, Outcome, done, ◌>>=◌}
use esp32_deskflow.Keycodes.{keycodes_set_layout}
use esp32_deskflow.Config.Text.{
  Directive, int, chars, Value, number, text, literal, fscanf, print_u, print_d,
}

-- `deskflow_config_t`; a character array is the string in front of its terminator.
pub record Config : Type 0 where
  pub server : List ℕ
  pub port : ℕ
  pub device_name : List ℕ
  pub keep_awake : Bool
  pub jiggle_interval : ℕ
  pub screen_width : ℕ
  pub screen_height : ℕ
  pub scaling : ℕ
  pub keyboard_layout : ℕ
  pub vlan_id : ℤ

-- `s_config`, the key table that is in use, and the text of the settings file on the stick.
pub record Store : Type 0 where
  pub config : Config
  pub s_table : List ℕ
  pub file : Option (List ℕ)

abbrev pub config_defaults : Config
config_defaults = record {
  server = codes "192.168.1.10";
  port = 24800;
  device_name = codes "deskflow-client";
  keep_awake = false;
  jiggle_interval = 30;
  screen_width = 1920;
  screen_height = 1080;
  scaling = 100;
  keyboard_layout = 0;
  vlan_id = negsuc 0;
}

-- What `config_save` prints.
unfoldable pub settings_text : Config → List ℕ
settings_text cfg =
    codes "{ \"server\": \""
    ++ (cfg.server
        ++ (codes "\",\n \"port\": "
            ++ (print_u cfg.port
                ++ (codes ",\n \"device_name\": \""
                    ++ (cfg.device_name
                        ++ (codes "\",\n \"screen_width\": "
                            ++ (print_u cfg.screen_width
                                ++ (codes ",\n \"screen_height\": "
                                    ++ (print_u cfg.screen_height
                                        ++ (codes ",\n \"scaling\": "
                                            ++ (print_u cfg.scaling
                                                ++ (codes ",\n \"jiggle_interval\": "
                                                    ++ (print_u cfg.jiggle_interval
                                                        ++ (codes ",\n \"keep_awake\": "
                                                            ++ ((if cfg.keep_awake
                                                            then codes "true"
                                                            else codes "false")
                                                            ++ (codes ",\n \"keyboard_layout\": "
                                                            ++ (print_u cfg.keyboard_layout
                                                            ++ (codes ",\n \"vlan_id\": "
                                                            ++ (print_d cfg.vlan_id
                                                            ++ codes "}")))))))))))))))))))

-- `config_save`, with the results of usb_host_msc_is_mounted and of fopen; the argument is not null.
-- A full stick is left out: what is printed is taken to be written.
unfoldable pub config_save : Bool → Bool → Config → Store → EspErr × Store
config_save mounted opened cfg store =
    if mounted
    then (if opened
        then (
          esp_ok,
          record {
            config = cfg;
            s_table = keycodes_set_layout cfg.keyboard_layout store.s_table;
            file = some (settings_text cfg);
          },
        )
        else (esp_fail, store))
    else (esp_err_not_found, store)

-- The format of `config_load`.
abbrev pub settings_format : List Directive
settings_format =
    literal "{ \"server\": \""
    ++ (chars 63 (codes "\"") ∷ literal "\",\n \"port\": "
        ++ (int ∷ literal ",\n \"device_name\": \""
            ++ (chars 31 (codes "\"") ∷ literal "\",\n \"screen_width\": "
                ++ (int ∷ literal ",\n \"screen_height\": "
                    ++ (int ∷ literal ",\n \"scaling\": "
                        ++ (int ∷ literal ",\n \"jiggle_interval\": "
                            ++ (int ∷ literal ",\n \"keep_awake\": "
                                ++ (chars 7 (codes ",\n") ∷ literal ",\n \"keyboard_layout\": "
                                    ++ (int ∷ literal ",\n \"vlan_id\": "
                                        ++ (int ∷ literal "}"))))))))))

-- The values are taken when all ten were read.
unfoldable pub config_of_values : List Value → Config → Config
config_of_values
      (text server
        ∷ number port
        ∷ text name
        ∷ number sw
        ∷ number sh
        ∷ number sc
        ∷ number ji
        ∷ text keep
        ∷ number kl
        ∷ number vid
        ∷ [])
      cfg =
    record {
      server = server;
      port = u16_of_int port;
      device_name = name;
      keep_awake = memcmp_eq keep (codes "true");
      jiggle_interval = u16_of_int ji;
      screen_width = u16_of_int sw;
      screen_height = u16_of_int sh;
      scaling = u16_of_int sc;
      keyboard_layout = u8_of_int kl;
      vlan_id = int16_of_u16 (u16_of_int vid);
    }
config_of_values _ cfg = cfg

-- `config_load`, with the result of usb_host_msc_is_mounted; the file opens when it is there.
unfoldable pub config_load : Bool → Store → Outcome (EspErr × Store)
unfolding config_of_values
config_load mounted store =
    let reset = record store { config = config_defaults } in
    if mounted
    then (elim store.file [
      | none ↦ done (esp_ok, reset)
      | some content ↦ fscanf settings_format content >>= λ values.
          let cfg = config_of_values values config_defaults in
          done (
            esp_ok,
            record reset {
              config = cfg;
              s_table = keycodes_set_layout cfg.keyboard_layout store.s_table;
            },
          )
    ])
    else done (esp_ok, reset)
