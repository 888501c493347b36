-- ===== src/Web/Certificates.antt =====
-- The remaining requests of main/web/web_server.c: the certificates, the log's level, the restart, and the
-- static pages.
use esp32_deskflow.Prelude.{
  ℕ, ◌==◌, ltb, leb, Bool, true, false, not, ◌&&◌, List, [], ◌∷◌, length, take, get_or, memcmp_eq,
  if◌then◌else◌, Option, none, some, codes,
}
use esp32_deskflow.Esp.{EspErr, esp_ok, esp_fail, is_ok, Outcome, done, fault}
use esp32_deskflow.Config.Certs.{Certs, Uploading, config_upload_cert}
use esp32_deskflow.Eth.{Bits}
use esp32_deskflow.Web.{c_string, behind, until, prepended}
use esp32_deskflow.Web.Serial.{Answer, bad_request, too_large, internal_error, nothing, body}

-- The text in front of what `strstr` finds.
abbrev pub before : List ℕ → List ℕ → Option (List ℕ)
before needle [] = none
before needle (c ∷ cs) =
    let rest = prepended c (before needle cs) in
    if memcmp_eq (take (length needle) (c ∷ cs)) needle then some [] else rest

-- The certificates, what was written to their files (the type and the text, the last first), the event
-- group, and `r`.
pub record Uploads : Type 0 where
  pub certs : Certs
  pub files : List (ℕ × List ℕ)
  pub bits : Bits
  pub r : EspErr

abbrev pub noted : ℕ → Option (List ℕ) → List (ℕ × List ℕ) → List (ℕ × List ℕ)
noted type none files = files
noted type (some text) files = (type, text) ∷ files

-- `r = config_upload_cert(type, s, len)`
abbrev pub uploaded : Uploading → ℕ → List ℕ → Uploads → Uploads
uploaded u type text s =
    let call = config_upload_cert u type text s.certs in
    record s { certs = call.2; files = noted type call.1 s.files; r = call.0 }

-- A field is uploaded when its end is found and it is not empty.
abbrev pub upload_found : Uploading → ℕ → Option (List ℕ) → Uploads → Uploads
upload_found u type none s = s
upload_found u type (some []) s = s
upload_found u type (some (c ∷ cs)) s = uploaded u type (c ∷ cs) s

abbrev pub ended_by : (List ℕ → Option (List ℕ)) → Option (List ℕ) → Option (List ℕ)
ended_by ending none = none
ended_by ending (some s) = ending s

-- The three fields in their order; the first two end at a quotation mark that a comma and another one
-- follow.
unfoldable pub upload_fields : Uploading → Uploading → Uploading → List ℕ → Uploads → Uploads
upload_fields u0 u1 u2 buf s =
    let ca = ended_by (before (codes "\",\"")) (behind (codes "\"ca\":\"") buf) in
    let cert = ended_by (before (codes "\",\"")) (behind (codes "\"cert\":\"") buf) in
    let key = ended_by (until 34) (behind (codes "\"key\":\"") buf) in
    upload_found u2 2 key (upload_found u1 1 cert (upload_found u0 0 ca s))

-- The answer behind the uploads.
abbrev pub upload_answered : Bool → Uploads → EspErr × Answer × Uploads
upload_answered has_group s = if not (is_ok s.r) then (esp_fail, internal_error, s) else (
  esp_ok,
  body (codes "ok"),
  record s { bits = if has_group then record s.bits { reconnect = true } else s.bits },
)

-- `cert_upload_handler`, with the announced length, what httpd_req_recv gave, what each upload meets, and
-- whether the event group is set. The terminator behind 4096 bytes is written outside the array.
unfoldable pub cert_upload_handler :
    ℕ
    → Option (List ℕ)
    → Uploading
    → Uploading
    → Uploading
    → Bool
    → Uploads
    → Outcome (EspErr × Answer × Uploads)
unfolding upload_fields
cert_upload_handler content_len received u0 u1 u2 has_group s =
    if ltb 4096 content_len then done (esp_ok, too_large, s) else elim received [
      | none ↦ done (esp_ok, bad_request, s)
      | some text ↦
          if ltb (length text) 4096
          then done (
              upload_answered has_group
                (upload_fields u0 u1 u2 (c_string text) (record s { r = esp_ok })))
          else fault
    ]

-- The level of the log: `g_log_debug`, and that of the three tags "hid_task", "keycodes" and
-- "tusb_device", with true for ESP_LOG_DEBUG.
pub record Levels : Type 0 where
  pub g_log_debug : Bool
  pub hid_task : Bool
  pub keycodes : Bool
  pub tusb_device : Bool

-- `log_level_handler`, with none for GET and otherwise the bytes that httpd_req_recv gave, at most 4.
unfoldable pub log_level_handler : Option (List ℕ) → Levels → Answer × Levels
log_level_handler none l = (body (if l.g_log_debug then codes "1" else codes "0"), l)
log_level_handler (some buf) l =
    if leb 3 (length buf) && (get_or buf 2 0 == 49)
    then (
      nothing,
      record { g_log_debug = true; hid_task = true; keycodes = true; tusb_device = true },
    )
    else (
      nothing,
      record { g_log_debug = false; hid_task = false; keycodes = false; tusb_device = false },
    )

-- `reboot_handler` up to esp_restart: what the browser is answered, and that the chip restarts.
unfoldable pub reboot_handler : Answer × Bool
reboot_handler = (body (codes "\"rebooting\""), true)

-- `index_get_handler`, `log_page_handler` and `uart_page_handler`, with the page.
unfoldable pub page_handler : List ℕ → EspErr × Answer
page_handler page = (esp_ok, body page)
