-- ===== src/Web/Escaped.antt =====
-- What the certificate form of main/web/settings_page.h sends, and what main/web/web_server.c keeps of
-- it.
use esp32_deskflow.Prelude.{
  ℕ, ◌+◌, ◌/◌, ◌%◌, ◌≤◌, ◌<◌, ◌≡◌, ◌&&◌, ◌||◌, refl, arith, ◌==◌, Bool, true, false, ltb, List, [],
  ◌∷◌, ◌++◌, length, if◌then◌else◌, some, codes,
}
use esp32_deskflow.Esp.{esp_ok, esp_fail, done}
use esp32_deskflow.Config.Fields.{free_of}
use esp32_deskflow.Config.Certs.{Uploading}
use esp32_deskflow.Web.Serial.{internal_error, body}
use esp32_deskflow.Web.Certificates.{Uploads, cert_upload_handler}
use esp32_deskflow.Web.Restored.{free_of-append}
use esp32_deskflow.Web.Uploaded.{upload_json, works, stored, IsField, cert_upload_handler_lem}

abbrev hex : ℕ → ℕ
hex d = if ltb d 10 then 48 + d else 87 + d

-- What JSON.stringify writes for a character.
abbrev pub escape : ℕ → List ℕ
escape c =
    if c == 34
    then codes "\\\""
    else if c == 92
    then codes "\\\\"
    else if c == 8
    then codes "\\b"
    else if c == 9
    then codes "\\t"
    else if c == 10
    then codes "\\n"
    else if c == 12
    then codes "\\f"
    else if c == 13
    then codes "\\r"
    else if ltb c 32
    then codes "\\u00" ++ hex (c / 16) ∷ hex (c % 16) ∷ []
    else c ∷ []

abbrev pub escaped : List ℕ → List ℕ
escaped [] = []
escaped (c ∷ cs) = escape c ++ escaped cs

-- The body of the request that the form sends of its three texts.
abbrev pub form_json : List ℕ → List ℕ → List ℕ → List ℕ
form_json ca cert key = upload_json (escaped ca) (escaped cert) (escaped key)

hex_plain :
    (d : ℕ) → (free_of (codes "\"") (hex d ∷ []) ≡ true) × (free_of (0 ∷ []) (hex d ∷ []) ≡ true)
hex_plain d = ground arith

escape_plain :
    (c : ℕ)
    → (c == 34) ≡ false
    → (c == 0) ≡ false
    → (free_of (codes "\"") (escape c) ≡ true) × (free_of (0 ∷ []) (escape c) ≡ true)
escape_plain c other some_char = ground (arith, hex_plain (c / 16), hex_plain (c % 16))

escape_some : (c : ℕ) → 0 < length (escape c)
escape_some c = ground arith

escaped_plain :
    (s : List ℕ)
    → free_of (codes "\"") s ≡ true
    → free_of (0 ∷ []) s ≡ true
    → (free_of (codes "\"") (escaped s) ≡ true) × (free_of (0 ∷ []) (escaped s) ≡ true)
escaped_plain [] plain ended = (refl, refl)
escaped_plain (c ∷ cs) plain ended =
    let here = escape_plain c (ground (arith, plain)) (ground (arith, ended)) in
    let rest = escaped_plain cs (ground (arith, plain)) (ground (arith, ended)) in
    (
      free_of-append (codes "\"") (escape c) (escaped cs) here.0 rest.0,
      free_of-append (0 ∷ []) (escape c) (escaped cs) here.1 rest.1,
    )

append_some : (s t : List ℕ) → 0 < length s → 0 < length (s ++ t)
append_some [] t h = absurd (omega arith)
append_some (c ∷ s) t h = omega arith

escaped_some : (s : List ℕ) → 0 < length s → 0 < length (escaped s)
escaped_some [] h = absurd (omega arith)
escaped_some (c ∷ cs) h = append_some (escape c) (escaped cs) (escape_some c)

escaped-IsField : (s : List ℕ) → IsField s → IsField (escaped s)
escaped-IsField s w = record {
  some_text = escaped_some s w.some_text;
  plain = (escaped_plain s w.plain w.ended).0;
  ended = (escaped_plain s w.plain w.ended).1;
}

-- Of three texts that are not empty and hold no quotation mark or terminator, sent as the certificate
-- form sends them, with JSON.stringify, in at most 4095 characters, cert_upload_handler keeps the
-- escaped one, so with a backslash and an n for each line break, and a terminator, exactly when its own
-- upload works, and leaves the other slots; the request is answered by the last upload alone, and the
-- bit for a reconnect is set when that one works and the event group is there.
pub form_kept_escaped :
    (ca cert key : List ℕ) (u0 u1 u2 : Uploading) (has_group : Bool) (s : Uploads)
    → IsField ca
    → IsField cert
    → IsField key
    → length (form_json ca cert key) ≤ 4095
    → (s' : Uploads) × (cert_upload_handler
          (length (form_json ca cert key))
          (some (form_json ca cert key))
          u0
          u1
          u2
          has_group
          s
        ≡ done (
          if works u2 then esp_ok else esp_fail,
          if works u2 then body (codes "ok") else internal_error,
          s',
        ))
      × (s'.certs ≡ record {
        ca = stored u0 (escaped ca) s.certs.ca;
        client_cert = stored u1 (escaped cert) s.certs.client_cert;
        client_key = stored u2 (escaped key) s.certs.client_key;
      })
      × (s'.bits.reconnect ≡ (s.bits.reconnect || (works u2 && has_group)))
form_kept_escaped ca cert key u0 u1 u2 has_group s wa wc wk short =
    cert_upload_handler_lem (escaped ca) (escaped cert) (escaped key) u0 u1 u2 has_group s
      (escaped-IsField ca wa) (escaped-IsField cert wc) (escaped-IsField key wk) short
