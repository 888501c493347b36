-- ===== src/Main/Posted.antt =====
-- From a settings request of main/web/web_server.c over the settings file of main/config to the next start of
-- main/main.c.
use esp32_deskflow.Prelude.{
  ℕ, ◌≤◌, ◌<◌, ◌≡◌, refl, ◌∙◌, arith, inl, inr, ℤ, pos, negsuc, IsInt16, Bool, true, false, ltb,
  eqb_ℤ, List, length, some, Bool-cases,
}
use esp32_deskflow.Esp.{EspErr, esp_ok, done}
use esp32_deskflow.Msc.{usb_host_msc_is_mounted}
use esp32_deskflow.Config.{Config, config_save}
use esp32_deskflow.Config.Fields.{IsConfig}
use esp32_deskflow.Config.Certs.{Certs, config_load_certs}
use esp32_deskflow.Eth.{eth_init, eth_start, eth_set_vlan}
use esp32_deskflow.Client.Lifecycle.{no_parts}
use esp32_deskflow.Client.Released.{made, succeeds}
use esp32_deskflow.Web.{c_string, posted, is_vlan, Panel, settings_post_handler}
use esp32_deskflow.Web.Posted.{IsUsable, posted-IsUsable}
use esp32_deskflow.Main.{Machine, Start, msc_part, app_main}
use esp32_deskflow.Main.Started.{saved_then_started}

-- A request that is taken leaves the file that config_save writes.
posted_file :
    (text : List ℕ) (has_group : Bool) (p : Panel)
    → length text ≤ 1023
    → (settings_post_handler (length text) (some text) true true has_group p).1.store.file
      ≡ (config_save true true (posted (c_string text) p.store.config) p.store).1.file
unfolding settings_post_handler config_save
posted_file text has_group p short =
    let room : ltb 1023 (length text) ≡ false = ground arith in
    let cfg = posted (c_string text) p.store.config in
    elim (Bool-cases (eqb_ℤ p.store.config.vlan_id cfg.vlan_id)) [
      | inl same ↦ rw (room, same) refl
      | inr other ↦ rw (room, other) refl
    ]

IsInt16-vlan : (v : ℤ) → is_vlan v ≡ true → IsInt16 v
IsInt16-vlan (pos n) valid = (ground arith, ground arith)
IsInt16-vlan (negsuc n) valid = (ground arith, ground arith)

-- A usable configuration with both strings is one that the settings file can carry.
IsUsable-IsConfig :
    (cfg : Config)
    → IsUsable cfg
    → 0 < length cfg.server
    → 0 < length cfg.device_name
    → IsConfig cfg
IsUsable-IsConfig cfg w server name = record {
  server_fits = omega (arith, w.server_fits);
  server_some = server;
  server_plain = w.server_plain;
  name_fits = omega (arith, w.name_fits);
  name_some = name;
  name_plain = w.name_plain;
  port_range = w.port_range;
  jiggle_range = w.jiggle_range;
  width_range = w.width_range;
  height_range = w.height_range;
  scaling_range = w.scaling_range;
  layout_range = w.layout_range;
  vlan_range = IsInt16-vlan cfg.vlan_id w.vlan_valid;
}

-- A settings request of at most 1023 bytes is handled while a stick is mounted, on a usable configuration,
-- and leaves a server and a device name. When the chip starts with that stick mounted, the certificate
-- files are read without a fault, and the network driver and the client get what they need, it runs with
-- the configuration that the posted text makes of the old one, the VLAN registers are set by it, and the
-- client has all its parts and one connection task.
pub posted_then_started :
    (text : List ℕ) (has_group : Bool) (p : Panel) (s : Start) (m : Machine) (err : EspErr)
    (certs : Certs)
    → length text ≤ 1023
    → IsUsable p.store.config
    → 0 < length (posted (c_string text) p.store.config).server
    → 0 < length (posted (c_string text) p.store.config).device_name
    → m.store.file
      ≡ (settings_post_handler (length text) (some text) true true has_group p).1.store.file
    → m.parts ≡ no_parts
    → usb_host_msc_is_mounted (msc_part s m).msc ≡ true
    → config_load_certs true s.ca_file s.cert_file s.key_file m.certs ≡ done (err, certs)
    → s.group_created ≡ true
    → (eth_init s.setup m.driver).0 ≡ esp_ok
    → (let made_ = eth_init s.setup m.driver in
        (eth_start s.eth_started made_.1 made_.2).0 ≡ esp_ok)
    → succeeds s.making ≡ true
    → s.client_task_created ≡ true
    → (let cfg = posted (c_string text) p.store.config in
        (m' : Machine) × (app_main s m ≡ done (some m'))
        × (m'.store.config ≡ cfg)
        × (m'.registers ≡ eth_set_vlan s.emac_etv cfg.vlan_id m.registers)
        × (m'.parts ≡ record made { task_handle = true; client_tasks = 1 }))
posted_then_started text has_group p s m err certs short w server name file fresh mounted certified
      group eth started all task =
    let cfg = posted (c_string text) p.store.config in
    saved_then_started cfg p.store s m err certs
      (IsUsable-IsConfig cfg (posted-IsUsable (c_string text) p.store.config w) server name)
      (file ∙ posted_file text has_group p short) fresh mounted certified group eth started all task
