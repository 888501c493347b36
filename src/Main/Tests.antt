-- ===== src/Main/Tests.antt =====
-- The start and the loop of main/main.c at concrete inputs.
use esp32_deskflow.Prelude.{
  ℕ, ◌<◌, length, ◌≡◌, refl, arith, pos, true, false, List, [], ◌∷◌, ◌++◌, none, some, codes,
}
use esp32_deskflow.Esp.{esp_ok, esp_err_not_found, done}
use esp32_deskflow.Keycodes.{table_us}
use esp32_deskflow.Config.{Store, config_defaults}
use esp32_deskflow.Config.Certs.{
  Certs, no_cert, PemFile, read_pem, config_free_certs, config_load_certs,
}
use esp32_deskflow.Msc.{
  MscState, usb_host_msc_init, usb_host_msc_start, usb_host_msc_is_mounted, handle_device_connected,
}
use esp32_deskflow.Msc.Slots.{plugging}
use esp32_deskflow.Eth.{
  Bits, disconnected, got_ip, no_driver, eth_cleared, eth_init, eth_start, eth_set_vlan,
}
use esp32_deskflow.Eth.Events.{run}
use esp32_deskflow.Client.Lifecycle.{no_parts}
use esp32_deskflow.Client.Released.{made}
use esp32_deskflow.Led.{led_rgb_state}
use esp32_deskflow.Led.Colours.{shows_network}
use esp32_deskflow.Log.{log_ring_init, Sends}
use esp32_deskflow.Main.{Machine, Start, msc_part, app_main, Monitor, monitor_round}
use esp32_deskflow.Web.{c_string, posted, Panel, settings_post_handler}
use esp32_deskflow.Web.Posted.{IsUsable}
use esp32_deskflow.Main.Posted.{posted_then_started}
use esp32_deskflow.Main.Light.{light_outlives_link}

abbrev fresh : Store
fresh = record { config = config_defaults; s_table = table_us; file = none }

abbrev no_certs : Certs
no_certs = record { ca = no_cert; client_cert = no_cert; client_key = no_cert }

abbrev missing : PemFile
missing = record { content = none; allocated = true; stale = 0 }

abbrev granted : Start
granted = record {
  msc_created = true;
  max_msc_devices = 2;
  msc_task_created = true;
  msc_task = λ m. (handle_device_connected (plugging 9) 1 m).1;
  ca_file = missing;
  cert_file = missing;
  key_file = missing;
  group_created = true;
  setup = record {
    new_netif = true;
    new_mac = true;
    new_phy = true;
    install = true;
    new_glue = true;
    register_eth = esp_ok;
    register_ip = esp_ok;
  };
  eth_started = esp_ok;
  emac_etv = 65536;
  making = record {
    client_allocated = true;
    tls_created = true;
    actuator_allocated = true;
    queue_created = true;
    task_created = true;
  };
  client_task_created = true;
}

abbrev text : List ℕ
text = codes "{\"server\":\"desk.local\",\"vlan_id\":100}"

abbrev panel : Panel
panel = record {
  store = fresh;
  bits = record { link_up = true; link_down = false; has_ip = true; reconnect = false };
  reconfig = false;
}

defaults-IsUsable : IsUsable config_defaults
defaults-IsUsable = record {
  server_fits = omega arith;
  server_plain = refl;
  name_fits = omega arith;
  name_plain = refl;
  port_range = omega arith;
  jiggle_range = omega arith;
  width_range = omega arith;
  height_range = omega arith;
  scaling_range = omega arith;
  layout_range = omega arith;
  vlan_valid = refl;
}

server_left : 0 < length (posted (c_string text) config_defaults).server
unfolding posted
server_left = omega arith

name_left : 0 < length (posted (c_string text) config_defaults).device_name
unfolding posted
name_left = omega arith

-- The chip behind a restart, with the file that the request has written.
abbrev machine : Machine
machine = record {
  msc = record {
    devices = [];
    state = MscState.inactive;
    stop = false;
    mounted_sem = false;
    has_task = false;
  };
  store = record fresh {
    file = (settings_post_handler (length text) (some text) true true true panel).1.store.file;
  };
  certs = no_certs;
  eth = eth_cleared;
  driver = no_driver;
  registers = record { vlantag = 0; inclusion = 0 };
  parts = no_parts;
}

mounted : usb_host_msc_is_mounted (msc_part granted machine).msc ≡ true
unfolding usb_host_msc_is_mounted usb_host_msc_start usb_host_msc_init handle_device_connected
mounted = refl

none_loaded :
    config_load_certs true missing missing missing no_certs ≡ done (esp_err_not_found, no_certs)
unfolding config_load_certs read_pem config_free_certs
none_loaded = refl

eth_made : (eth_init granted.setup no_driver).0 ≡ esp_ok
unfolding eth_init
eth_made = refl

eth_running :
    (let made_ = eth_init granted.setup no_driver in
      (eth_start granted.eth_started made_.1 made_.2).0 ≡ esp_ok)
unfolding eth_init eth_start
eth_running = refl

posted_then_started_example :
    (let cfg = posted (c_string text) config_defaults in
      (m' : Machine) × (app_main granted machine ≡ done (some m'))
      × (m'.store.config ≡ cfg)
      × (m'.registers ≡ eth_set_vlan 65536 cfg.vlan_id machine.registers)
      × (m'.parts ≡ record made { task_handle = true; client_tasks = 1 }))
posted_then_started_example =
    posted_then_started text true panel granted machine esp_err_not_found no_certs (omega arith)
      defaults-IsUsable server_left name_left refl refl mounted none_loaded refl eth_made
      eth_running refl refl

vlan_taken : (posted (c_string text) config_defaults).vlan_id ≡ pos 100
unfolding posted
vlan_taken = refl

abbrev with_address : Bits
with_address = record { link_up = true; link_down = false; has_ip = true; reconnect = false }

abbrev monitor : Monitor
monitor = record {
  prev_has_ip = false;
  light = led_rgb_state false false;
  ring = log_ring_init;
  frames = [];
}

abbrev sends : Sends
sends = record { first = esp_ok; second = esp_ok }

light_outlives_link_example :
    (let (st', bits') = run ((got_ip ∷ []) ++ disconnected ∷ []) eth_cleared with_address in
      let light = (monitor_round bits' false machine.msc sends monitor).light in
      (st'.link_up ≡ false) × (shows_network light ≡ true))
light_outlives_link_example =
    light_outlives_link (got_ip ∷ []) eth_cleared with_address false machine.msc sends monitor refl
      refl
