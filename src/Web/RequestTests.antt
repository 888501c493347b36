-- ===== src/Web/RequestTests.antt =====
-- The requests of main/web/web_server.c for the UART, the settings and the certificates at concrete
-- inputs.
use esp32_deskflow.Prelude.{
  ℕ, ◌≤◌, ◌≡◌, ◌&&◌, ◌||◌, if◌then◌else◌, refl, arith, true, false, List, [], ◌∷◌, length,
  length-replicate, replicate, pos, negsuc, some, codes, IsBytes,
}
use esp32_deskflow.Esp.{esp_ok, esp_fail, done, fault}
use esp32_deskflow.Config.{Config, config_defaults}
use esp32_deskflow.Config.Text.{decimal}
use esp32_deskflow.Grove.{grove_uart_read, grove_uart_write}
use esp32_deskflow.Config.Certs.{Uploading, no_cert}
use esp32_deskflow.Web.{settings_post_handler}
use esp32_deskflow.Web.Tests.{defaults-IsUsable, panel}
use esp32_deskflow.Web.Serial.{body, internal_error, Heap, uart_read_handler, uart_write_handler}
use esp32_deskflow.Web.SerialText.{byte_list_json, uart_read_handler_lem}
use esp32_deskflow.Web.Current.{settings_json, settings_get_handler}
use esp32_deskflow.Web.Sent.{sent_text, settings_restored}
use esp32_deskflow.Web.Certificates.{Uploads, cert_upload_handler, Levels, log_level_handler}
use esp32_deskflow.Web.Uploaded.{IsField, works, stored}
use esp32_deskflow.Web.Escaped.{escaped, form_json, form_kept_escaped}

abbrev zero_heap : Heap
zero_heap = record { buf_allocated = true; resp_allocated = true; content = λ n. replicate n 0 }

sample-IsBytes : IsBytes (grove_uart_read (some (7 ∷ 255 ∷ 10 ∷ [])))
unfolding grove_uart_read
sample-IsBytes = (omega arith, (omega arith, (omega arith, tt)))

uart_read_handler_lem_example :
    uart_read_handler zero_heap (some (7 ∷ 255 ∷ 10 ∷ []))
    ≡ done (esp_ok, body (byte_list_json (grove_uart_read (some (7 ∷ 255 ∷ 10 ∷ [])))))
uart_read_handler_lem_example =
    uart_read_handler_lem zero_heap (some (7 ∷ 255 ∷ 10 ∷ [])) sample-IsBytes refl refl
      (λ n. length-replicate n 0)

text_shown : byte_list_json (7 ∷ 255 ∷ 10 ∷ []) ≡ codes "{\"bytes\":[7,255,10],\"count\":3}"
unfolding decimal
text_shown = refl

-- A write that fails is answered as if all had been written.
write_hidden :
    uart_write_handler 2 (some (1 ∷ 2 ∷ [])) (negsuc 0)
    ≡ (esp_ok, body (codes "{\"written\":2}"), some esp_fail)
unfolding uart_write_handler grove_uart_write decimal
write_hidden = refl

abbrev quiet_levels : Levels
quiet_levels = record {
  g_log_debug = false;
  hid_task = false;
  keycodes = false;
  tusb_device = false;
}

-- The level is set by the third character.
level_set : (log_level_handler (some (codes "d=1")) quiet_levels).1.keycodes ≡ true
unfolding log_level_handler
level_set = refl

abbrev long_config : Config
long_config = record config_defaults {
  server = replicate 63 97;
  device_name = replicate 31 98;
  port = 65535;
  screen_width = 65535;
  screen_height = 65535;
  scaling = 65535;
  jiggle_interval = 65535;
  keyboard_layout = 255;
  vlan_id = pos 4094;
}

-- The longest strings and numbers do not fit.
long_overread : sent_text (settings_json long_config) ≡ fault
unfolding settings_json decimal
long_overread = refl

defaults_fit : length (settings_json config_defaults) ≤ 255
unfolding settings_json decimal
defaults_fit = omega arith

settings_restored_example :
    (text : List ℕ) × (settings_get_handler (replicate 256 0) config_defaults
      ≡ done (esp_ok, body text))
    × (let (err, p') = settings_post_handler (length text) (some text) true true true panel in
        (err ≡ esp_ok) × (p'.store.config ≡ config_defaults))
settings_restored_example =
    settings_restored (replicate 256 0) config_defaults true panel refl defaults-IsUsable refl refl
      defaults_fit

abbrev before_upload : Uploads
before_upload = record {
  certs = record { ca = no_cert; client_cert = no_cert; client_key = no_cert };
  files = [];
  bits = panel.bits;
  r = esp_ok;
}

abbrev granted : Uploading
granted = record { mounted = true; opened = true; allocated = true }

abbrev refused : Uploading
refused = record { mounted = true; opened = false; allocated = true }

word-IsField : IsField (codes "abc")
word-IsField = record { some_text = omega arith; plain = refl; ended = refl }

-- Two lines, as in a PEM text.
abbrev lines : List ℕ
lines = 97 ∷ 10 ∷ 98 ∷ []

lines-IsField : IsField lines
lines-IsField = record { some_text = omega arith; plain = refl; ended = refl }

lines_joined : escaped lines ≡ codes "a\\nb"
lines_joined = refl

form_short : length (form_json lines (codes "abc") lines) ≤ 4095
form_short = omega arith

-- The first two uploads fail, and the request is answered with ESP_OK.
form_kept_escaped_example :
    (s' : Uploads) × (cert_upload_handler
        (length (form_json lines (codes "abc") lines))
        (some (form_json lines (codes "abc") lines))
        refused
        refused
        granted
        true
        before_upload
      ≡ done (
        if works granted then esp_ok else esp_fail,
        if works granted then body (codes "ok") else internal_error,
        s',
      ))
    × (s'.certs ≡ record {
      ca = stored refused (escaped lines) before_upload.certs.ca;
      client_cert = stored refused (escaped (codes "abc")) before_upload.certs.client_cert;
      client_key = stored granted (escaped lines) before_upload.certs.client_key;
    })
    × (s'.bits.reconnect ≡ (before_upload.bits.reconnect || (works granted && true)))
form_kept_escaped_example =
    form_kept_escaped lines (codes "abc") lines refused refused granted true before_upload
      lines-IsField word-IsField lines-IsField form_short
