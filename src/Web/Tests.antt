-- ===== src/Web/Tests.antt =====
-- The settings page's request of main/web/web_server.c at concrete inputs.
use esp32_deskflow.Prelude.{
  ℕ, ◌≤◌, ◌≡◌, refl, arith, eqb_ℤ, true, false, List, [], length, none, some, codes,
}
use esp32_deskflow.Esp.{esp_ok}
use esp32_deskflow.Keycodes.{table_us}
use esp32_deskflow.Reconnect.{reconnect_init}
use esp32_deskflow.Config.{config_defaults}
use esp32_deskflow.Tls.{tls_client_create}
use esp32_deskflow.Actuator.{Cmd, tusb_actuator_init}
use esp32_deskflow.Actuator.Fifo.{list_fifo}
use esp32_deskflow.Client.{ClientState}
use esp32_deskflow.Client.Task.{Task, Attempt, check_reconnect}
use esp32_deskflow.Web.{c_string, posted, Panel, settings_post_handler}
use esp32_deskflow.Web.Posted.{IsUsable, posted-IsUsable}
use esp32_deskflow.Web.Applied.{posted_server_taken}

abbrev text : List ℕ
text = codes "{\"server\":\"desk.local\",\"port\":70000,\"vlan_id\":5000}"

pub defaults-IsUsable : IsUsable config_defaults
defaults-IsUsable = record {
  server_fits = omega arith;
  server_plain = refl;
  name_fits = omega arith;
  name_plain = refl;
  port_range = omega arith;
  jiggle_range = omega arith;
  width_range = omega arith;
  height_range = omega arith;
  scaling_range = omega arith;
  layout_range = omega arith;
  vlan_valid = refl;
}

posted-IsUsable_example : IsUsable (posted text config_defaults)
posted-IsUsable_example = posted-IsUsable text config_defaults defaults-IsUsable

-- The port wraps around, and a VLAN number that does not exist is ignored.
port_wraps : (posted text config_defaults).port ≡ 4464
unfolding posted
port_wraps = refl

abbrev pub panel : Panel
panel = record {
  store = record { config = config_defaults; s_table = table_us; file = none };
  bits = record { link_up = true; link_down = false; has_ip = true; reconnect = false };
  reconfig = false;
}

abbrev idle_task : Task (List Cmd)
idle_task = record {
  client = record {
    state = ClientState.disconnected;
    actuator = tusb_actuator_init [] 1920 1080;
    reconnect = reconnect_init;
    running = true;
    read_buf = [];
    write_buf = [];
    last_activity_ms = 0;
    cursor_entered = false;
    written = [];
  };
  tls = none;
  reconnect_bit = false;
}

abbrev next_attempt : Attempt
next_attempt = record {
  cfg = config_defaults;
  created = false;
  shaken = record { status = esp_ok; read_buf = []; write_buf = []; written = [] };
  linked = λ tls. tls;
  rounds = [];
  random = 7;
}

text_fits : length text ≤ 1023
text_fits = omega arith

same_vlan :
    eqb_ℤ panel.store.config.vlan_id (posted (c_string text) panel.store.config).vlan_id ≡ true
unfolding posted
same_vlan = refl

posted_server_taken_example :
    (let (err, p') = settings_post_handler (length text) (some text) true true true panel in
      let cfg = posted (c_string text) panel.store.config in
      (err ≡ esp_ok)
      × ((check_reconnect list_fifo
            (record next_attempt { cfg = p'.store.config; created = true })
            (record idle_task { reconnect_bit = p'.bits.reconnect })).1.tls
          ≡ some (tls_client_create cfg.server cfg.port))
      × ((check_reconnect list_fifo
            (record next_attempt { cfg = p'.store.config; created = true })
            (record idle_task { reconnect_bit = p'.bits.reconnect })).1.reconnect_bit
          ≡ false))
posted_server_taken_example =
    posted_server_taken list_fifo text panel next_attempt idle_task text_fits same_vlan
