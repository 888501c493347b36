-- ===== src/Main/Started.antt =====
-- What the start of main/main.c makes of a configuration that was saved before.
use esp32_deskflow.Prelude.{◌≡◌, refl, ap, ◌∙◌, arith, Bool, true, false, if◌then◌else◌, none, some}
use esp32_deskflow.Esp.{EspErr, esp_ok, Outcome, done, ◌>>=◌}
use esp32_deskflow.Keycodes.{keycodes_set_layout}
use esp32_deskflow.Msc.{usb_host_msc_init, usb_host_msc_start, usb_host_msc_is_mounted}
use esp32_deskflow.Config.{Config, Store, config_save, config_load, settings_text}
use esp32_deskflow.Config.Fields.{IsConfig}
use esp32_deskflow.Config.RoundTrip.{load-save}
use esp32_deskflow.Config.Certs.{Certs, config_load_certs}
use esp32_deskflow.Eth.{eth_init, eth_start, eth_set_vlan}
use esp32_deskflow.Client.Lifecycle.{no_parts, barrier_client_create, barrier_client_start}
use esp32_deskflow.Client.Released.{made, succeeds, barrier_client_create_lem}
use esp32_deskflow.Main.{
  Machine, Start, msc_part, certs_part, config_part, ethernet_part, client_part, app_main,
}

config_part_lem :
    (s : Start) (m : Machine) (err : EspErr) (store : Store) (err' : EspErr) (certs : Certs)
    → usb_host_msc_is_mounted m.msc ≡ true
    → config_load true m.store ≡ done (err, store)
    → config_load_certs true s.ca_file s.cert_file s.key_file m.certs ≡ done (err', certs)
    → config_part s m ≡ done (record m { store = store; certs = certs })
config_part_lem s m err store err' certs mounted loaded certified =
    ap (λ b. config_load b m.store >>= λ r. certs_part s (record m { store = r.1 })) mounted
    ∙ ap (λ o. o >>= λ (r : EspErr × Store). certs_part s (record m { store = r.1 })) loaded
    ∙ ap
        (λ b.
          if b
          then (config_load_certs true s.ca_file s.cert_file s.key_file m.certs >>= λ r.
              done (record m { store = store; certs = r.1 }))
          else done (record m { store = store }))
        mounted
    ∙ ap (λ o. o >>= λ (r : EspErr × Certs). done (record m { store = store; certs = r.1 }))
        certified

ethernet_part_lem :
    (s : Start) (m : Machine)
    → (eth_init s.setup m.driver).0 ≡ esp_ok
    → (let made = eth_init s.setup m.driver in (eth_start s.eth_started made.1 made.2).0 ≡ esp_ok)
    → (ethernet_part s m).registers ≡ eth_set_vlan s.emac_etv m.store.config.vlan_id m.registers
ethernet_part_lem s m made started = rw (made, started) refl

ethernet_part_rest :
    (s : Start) (m : Machine)
    → ((ethernet_part s m).store ≡ m.store)
      × ((ethernet_part s m).parts ≡ m.parts)
      × ((ethernet_part s m).msc ≡ m.msc)
ethernet_part_rest s m = (ground arith, ground arith, ground arith)

client_part_lem :
    (s : Start) (m : Machine)
    → succeeds s.making ≡ true
    → m.parts ≡ no_parts
    → s.client_task_created ≡ true
    → client_part s m ≡ record m { parts = record made { task_handle = true; client_tasks = 1 } }
unfolding barrier_client_start
client_part_lem s m all nothing created =
    let whole : barrier_client_create s.making m.parts ≡ (true, made) =
      ap (barrier_client_create s.making) nothing
      ∙ barrier_client_create_lem s.making
      ∙ ap (λ c. (c, if c then made else no_parts)) all in
    rw (whole, created) refl

msc_part_lem : (s : Start) (m : Machine) → msc_part s m ≡ record m { msc = (msc_part s m).msc }
msc_part_lem s m = by_creation s.msc_created
  where
    by_creation :
        (b : Bool)
        → (let m' =
              if b
              then record m {
                msc =
                    (usb_host_msc_start s.msc_task_created s.msc_task
                      (usb_host_msc_init s.max_msc_devices)).1;
              }
              else m in
            m' ≡ record m { msc = m'.msc })
    by_creation true = refl
    by_creation false = refl

-- The file that config_save writes is loaded, whatever was configured before.
saved_loaded :
    (cfg : Config) (st store : Store)
    → IsConfig cfg
    → store.file ≡ (config_save true true cfg st).1.file
    → config_load true store
      ≡ done (
        esp_ok,
        record {
          config = cfg;
          s_table = keycodes_set_layout cfg.keyboard_layout store.s_table;
          file = some (settings_text cfg);
        },
      )
unfolding config_save
saved_loaded cfg st store w same =
    ap (λ f. config_load true (record store { file = f })) same
    ∙ load-save cfg store.config store.s_table st w

-- A chip that starts with the settings file that config_save wrote, while the stick is mounted, the
-- certificate files are read without a fault, and the network driver and the client get what they need: it
-- runs with that configuration, the VLAN registers are set by it, and the client has all its parts and
-- one connection task.
pub saved_then_started :
    (cfg : Config) (st : Store) (s : Start) (m : Machine) (err : EspErr) (certs : Certs)
    → IsConfig cfg
    → m.store.file ≡ (config_save true true cfg st).1.file
    → m.parts ≡ no_parts
    → usb_host_msc_is_mounted (msc_part s m).msc ≡ true
    → config_load_certs true s.ca_file s.cert_file s.key_file m.certs ≡ done (err, certs)
    → s.group_created ≡ true
    → (eth_init s.setup m.driver).0 ≡ esp_ok
    → (let made = eth_init s.setup m.driver in (eth_start s.eth_started made.1 made.2).0 ≡ esp_ok)
    → succeeds s.making ≡ true
    → s.client_task_created ≡ true
    → (m' : Machine) × (app_main s m ≡ done (some m'))
      × (m'.store.config ≡ cfg)
      × (m'.registers ≡ eth_set_vlan s.emac_etv cfg.vlan_id m.registers)
      × (m'.parts ≡ record made { task_handle = true; client_tasks = 1 })
unfolding app_main
saved_then_started cfg st s m err certs w file fresh mounted certified group made started all task =
    let m1 : Machine = record m { msc = (msc_part s m).msc } in
    let store : Store = record {
      config = cfg;
      s_table = keycodes_set_layout cfg.keyboard_layout m.store.s_table;
      file = some (settings_text cfg);
    } in
    let m2 : Machine = record m1 { store = store; certs = certs } in
    let m3 = ethernet_part s m2 in
    let rest = ethernet_part_rest s m2 in
    let behind = λ (o : Outcome Machine). o >>= λ m'.
    if s.group_created then done (some (client_part s (ethernet_part s m'))) else done none in
    let config : config_part s (msc_part s m) ≡ done m2 =
      ap (config_part s) (msc_part_lem s m)
      ∙ config_part_lem s m1 esp_ok store err certs mounted (saved_loaded cfg st m.store w file)
          certified in
    let client = client_part_lem s m3 all (rest.1 ∙ fresh) task in
    (
      client_part s m3,
      ap behind config ∙ (rw group refl),
      ap (λ (x : Machine). x.store.config) client ∙ ap (λ (x : Store). x.config) rest.0,
      ap (λ (x : Machine). x.registers) client ∙ ethernet_part_lem s m2 made started,
      ap (λ (x : Machine). x.parts) client,
    )
