-- ===== src/Web/Current.antt =====
-- The request of main/web/web_server.c that reads the settings.
use esp32_deskflow.Prelude.{ℕ, List, length, if◌then◌else◌, codes}
use esp32_deskflow.Esp.{EspErr, Outcome, ◌>>=◌}
use esp32_deskflow.Config.{Config}
use esp32_deskflow.Config.Text.{print_u, print_d}
use esp32_deskflow.Web.Format
use esp32_deskflow.Web.Format.{Pieces}
use esp32_deskflow.Web.Printing.{snprintf_at, httpd_resp_send}
use esp32_deskflow.Web.Serial.{Answer, ok_body}

-- The arguments of the format as they are printed.
abbrev pub pieces : Config → Pieces
pieces cfg = record {
  server = cfg.server;
  port = print_u cfg.port;
  device_name = cfg.device_name;
  screen_width = print_u cfg.screen_width;
  screen_height = print_u cfg.screen_height;
  scaling = print_u cfg.scaling;
  jiggle_interval = print_u cfg.jiggle_interval;
  keep_awake = if cfg.keep_awake then codes "1" else codes "0";
  keyboard_layout = print_u cfg.keyboard_layout;
  vlan_id = print_d cfg.vlan_id;
}

unfoldable pub settings_json : Config → List ℕ
settings_json cfg = Format.whole (pieces cfg)

-- `settings_get_handler`, with what its array holds at the start; config_get_current is not null.
unfoldable pub settings_get_handler : List ℕ → Config → Outcome (EspErr × Answer)
unfolding settings_json
settings_get_handler buf cfg = snprintf_at 0 (settings_json cfg) buf >>= λ buf'.
    httpd_resp_send buf' (length (settings_json cfg)) >>= ok_body
