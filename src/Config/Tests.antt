-- ===== src/Config/Tests.antt =====
-- The configuration store of main/config/config.c at concrete inputs.
use esp32_deskflow.Prelude.{
  ℕ, ◌+◌, ◌≡◌, refl, arith, pos, true, List, [], ◌∷◌, ◌++◌, length, take, some, none, codes,
}
use esp32_deskflow.Esp.{esp_ok, done, fault}
use esp32_deskflow.Keycodes.{keycodes_set_layout, table_us}
use esp32_deskflow.Config.{Config, Store, config_defaults, settings_text, config_save, config_load}
use esp32_deskflow.Config.Fields.{IsConfig}
use esp32_deskflow.Config.RoundTrip.{load-save}
use esp32_deskflow.Config.Certs.{Certs, no_cert, read_pem}
use esp32_deskflow.Config.Certs.Strip.{clean}
use esp32_deskflow.Config.Certs.Pem.{read_pem_lem, read_pem_overrun}

abbrev german : Config
german = record config_defaults {
  server = codes "desk.local";
  keyboard_layout = 1;
  keep_awake = true;
  vlan_id = pos 100;
}

german-IsConfig : IsConfig german
german-IsConfig = record {
  server_fits = omega arith;
  server_some = omega arith;
  server_plain = refl;
  name_fits = omega arith;
  name_some = omega arith;
  name_plain = refl;
  port_range = omega arith;
  jiggle_range = omega arith;
  width_range = omega arith;
  height_range = omega arith;
  scaling_range = omega arith;
  layout_range = omega arith;
  vlan_range = (omega arith, omega arith);
}

abbrev fresh : Store
fresh = record { config = config_defaults; s_table = table_us; file = none }

load-save_example :
    config_load true (record (config_save true true german fresh).1 {
      config = config_defaults;
      s_table = table_us;
    })
    ≡ done (
      esp_ok,
      record {
        config = german;
        s_table = keycodes_set_layout 1 table_us;
        file = some (settings_text german);
      },
    )
load-save_example = load-save german config_defaults table_us fresh german-IsConfig

-- A file that some other program wrote.
abbrev foreign : Store
foreign = record fresh { file = some (codes "{ \"server\": \"a\",\n \"port\": 70000,\n") }

read_pem_lem_example :
    (buf : List ℕ) × (read_pem
        (record { content = some (65 ∷ 13 ∷ 10 ∷ 66 ∷ []); allocated = true; stale = 7 })
      ≡ done (some (record { buf = some buf; len = length (clean (65 ∷ 13 ∷ 10 ∷ 66 ∷ [])) + 1 })))
    × (take (length (clean (65 ∷ 13 ∷ 10 ∷ 66 ∷ [])) + 1) buf
        ≡ clean (65 ∷ 13 ∷ 10 ∷ 66 ∷ []) ++ 0 ∷ [])
read_pem_lem_example = read_pem_lem (65 ∷ 13 ∷ 10 ∷ 66 ∷ []) 7 (omega arith) (omega arith)

read_pem_overrun_example :
    read_pem (record { content = some (65 ∷ 10 ∷ 66 ∷ []); allocated = true; stale = 7 }) ≡ fault
read_pem_overrun_example = read_pem_overrun (65 ∷ 10 ∷ 66 ∷ []) 7 (omega arith) refl refl

abbrev no_certs : Certs
no_certs = record { ca = no_cert; client_cert = no_cert; client_key = no_cert }
