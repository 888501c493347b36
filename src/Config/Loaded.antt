-- ===== src/Config/Loaded.antt =====
-- What config_load of main/config/config.c makes of an arbitrary settings file.
use esp32_deskflow.Prelude.{List}
use esp32_deskflow.Esp.{EspErr, esp_ok, Outcome, done, ◌>>=◌}
use esp32_deskflow.Keycodes.{keycodes_set_layout}
use esp32_deskflow.Config.{Store, config_defaults, config_of_values}
use esp32_deskflow.Config.Text.{Value}

-- The store with the configuration that the values make up.
abbrev store_of : Store → List Value → Store
store_of store values =
    let cfg = config_of_values values config_defaults in
    record store { config = cfg; s_table = keycodes_set_layout cfg.keyboard_layout store.s_table }

abbrev taken : Store → Outcome (List Value) → Outcome (EspErr × Store)
taken store o = o >>= λ values. done (esp_ok, store_of store values)
