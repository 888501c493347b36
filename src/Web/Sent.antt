-- ===== src/Web/Sent.antt =====
-- The settings that main/web/web_server.c sends, and what becomes of them when they are posted again.
use esp32_deskflow.Prelude.{
  ℕ, zero, suc, ◌==◌, take_all, ◌≤◌, ◌<◌, ◌≡◌, refl, ap, ◌∙◌, arith, inl, inr, Bool, true, false,
  ltb, eqb_ℤ, List, [], ◌∷◌, ◌++◌, length, take, take-append_all, if◌then◌else◌, some, codes,
  Bool-cases, lt→ltb, le→ltb, length-append,
}
use esp32_deskflow.Esp.{EspErr, esp_ok, Outcome, done, fault, ◌>>=◌}
use esp32_deskflow.Config.{Config, config_save}
use esp32_deskflow.Config.Text.{print_u, print_d}
use esp32_deskflow.Config.Fields.{free_of}
use esp32_deskflow.Web.{c_string, posted, Panel, settings_post_handler}
use esp32_deskflow.Web.Posted.{IsUsable}
use esp32_deskflow.Web.Printing.{snprintf, httpd_resp_send, snprintf-Printed}
use esp32_deskflow.Web.Serial.{Answer, body, ok_body}
use esp32_deskflow.Web.Format
use esp32_deskflow.Web.Format.{Pieces}
use esp32_deskflow.Web.Current.{pieces, settings_json, settings_get_handler}
use esp32_deskflow.Web.Searched.{c_string-append}
use esp32_deskflow.Web.Restored.{free_of-decimal, free_of-print_d, posted-settings_json}

length-snprintf : (buf text : List ℕ) → length (snprintf buf text) ≡ length buf
length-snprintf [] text = refl
length-snprintf (b ∷ []) text = refl
length-snprintf (b ∷ c ∷ buf) [] = refl
length-snprintf (b ∷ c ∷ buf) (t ∷ text) = omega (arith, length-snprintf (c ∷ buf) text)

printed_sent :
    (text buf : List ℕ)
    → length text < length buf
    → httpd_resp_send (snprintf buf text) (length text) ≡ done text
printed_sent text buf h =
    let p = snprintf-Printed text buf h in
    let inside : ltb (length (text ++ p.rest)) (length text) ≡ false =
      le→ltb (length (text ++ p.rest)) (length text) (omega (arith, length-append text p.rest)) in
    rw (p.whole, inside, take-append_all text p.rest) refl

-- A text that does not fit is cut off in front of the terminator.
snprintf_cut :
    (n : ℕ) (buf text : List ℕ)
    → length buf ≡ suc n
    → suc n ≤ length text
    → snprintf buf text ≡ take n text ++ 0 ∷ []
snprintf_cut n [] text sized long = absurd (omega arith)
snprintf_cut zero (b ∷ []) text sized long = refl
snprintf_cut (suc n) (b ∷ []) text sized long = absurd (omega arith)
snprintf_cut zero (b ∷ c ∷ buf) text sized long = absurd (omega arith)
snprintf_cut (suc n) (b ∷ c ∷ buf) [] sized long = absurd (omega arith)
snprintf_cut (suc n) (b ∷ c ∷ buf) (t ∷ text) sized long =
    ap (λ l. t ∷ l) (snprintf_cut n (c ∷ buf) text (omega arith) (omega arith))

-- What an array of 256 characters allows: the text, the text with its last character replaced by the
-- terminator, or a read outside.
abbrev pub sent_text : List ℕ → Outcome (EspErr × Answer)
sent_text text =
    if ltb (length text) 256
    then done (esp_ok, body text)
    else if length text == 256
    then done (esp_ok, body (take 255 text ++ 0 ∷ []))
    else fault

-- settings_get_handler sends the whole text of the settings when that has at most 255 characters, puts the
-- terminator in place of the last of 256, and reads behind its array when there are more.
pub settings_get_handler_lem :
    (buf : List ℕ) (cfg : Config)
    → length buf ≡ 256
    → settings_get_handler buf cfg ≡ sent_text (settings_json cfg)
unfolding settings_get_handler
settings_get_handler_lem buf cfg sized =
    let text = settings_json cfg in
    elim (Bool-cases (ltb (length text) 256)) [
      | inl short ↦
          let fits : length text < length buf = ground arith in
          rw short (ap (λ o. o >>= ok_body) (printed_sent text buf fits))
      | inr long ↦ elim (Bool-cases (length text == 256)) [
        | inl exact ↦
            let n : length text ≡ 256 = ground arith in
            let cut = snprintf_cut 255 buf text sized (omega arith) in
            let inside : ltb (length (snprintf buf text)) (length text) ≡ false =
              le→ltb (length (snprintf buf text)) (length text)
                (omega (arith, length-snprintf buf text)) in
            let all : take (length text) (snprintf buf text) ≡ take 255 text ++ 0 ∷ [] =
              take_all (length text) (snprintf buf text) (omega (arith, length-snprintf buf text))
              ∙ cut in
            rw (long, exact, inside, all) refl
        | inr more ↦
            let outside : ltb (length (snprintf buf text)) (length text) ≡ true =
              lt→ltb (length (snprintf buf text)) (length text)
                (ground (arith, length-snprintf buf text)) in
            rw (long, more, outside) refl
      ]
    ]

c_string-settings_json :
    (cfg : Config)
    → free_of (0 ∷ []) cfg.server ≡ true
    → free_of (0 ∷ []) cfg.device_name ≡ true
    → c_string (settings_json cfg) ≡ settings_json cfg
unfolding settings_json
c_string-settings_json cfg server name =
    let p = pieces cfg in
    let number = λ (n : ℕ) (rest : List ℕ).
      c_string-append (print_u n) rest (free_of-decimal 0 10 n (omega arith)) in
    let keep : free_of (0 ∷ []) p.keep_awake ≡ true = ground arith in
    rw
      (
        c_string-append cfg.server (codes "\",\"port\":" ++ Format.port p) server,
        number cfg.port (codes ",\"device_name\":\"" ++ Format.device_name p),
        c_string-append cfg.device_name (codes "\",\"screen_width\":" ++ Format.screen_width p)
            name,
        number cfg.screen_width (codes ",\"screen_height\":" ++ Format.screen_height p),
        number cfg.screen_height (codes ",\"scaling\":" ++ Format.scaling p),
        number cfg.scaling (codes ",\"jiggle_interval\":" ++ Format.jiggle_interval p),
        number cfg.jiggle_interval (codes ",\"keep_awake\":" ++ Format.keep_awake p),
        c_string-append p.keep_awake (codes ",\"keyboard_layout\":" ++ Format.keyboard_layout p)
            keep,
        number cfg.keyboard_layout (codes ",\"vlan_id\":" ++ Format.vlan_id p),
        c_string-append (print_d cfg.vlan_id) (codes "}")
            (free_of-print_d 0 cfg.vlan_id (omega arith)),
      )
      refl

-- While a stick is mounted, a request is taken whichever VLAN number it names.
settings_post_taken :
    (text : List ℕ) (has_group : Bool) (p : Panel)
    → length text ≤ 1023
    → (let (err, p') = settings_post_handler (length text) (some text) true true has_group p in
        (err ≡ esp_ok) × (p'.store.config ≡ posted (c_string text) p.store.config))
unfolding settings_post_handler config_save
settings_post_taken text has_group p short =
    let room : ltb 1023 (length text) ≡ false = ground arith in
    let cfg = posted (c_string text) p.store.config in
    elim (Bool-cases (eqb_ℤ p.store.config.vlan_id cfg.vlan_id)) [
      | inl same ↦ rw (room, same) (refl, refl)
      | inr other ↦ rw (room, other) (refl, refl)
    ]

-- For a usable configuration whose strings are C strings and whose text has at most 255 characters:
-- settings_get_handler sends a text that settings_post_handler, while a stick is mounted, answers with
-- ESP_OK and turns back into that configuration, whatever the configuration was in between.
pub settings_restored :
    (buf : List ℕ) (cfg : Config) (has_group : Bool) (p : Panel)
    → length buf ≡ 256
    → IsUsable cfg
    → free_of (0 ∷ []) cfg.server ≡ true
    → free_of (0 ∷ []) cfg.device_name ≡ true
    → length (settings_json cfg) ≤ 255
    → (text : List ℕ) × (settings_get_handler buf cfg ≡ done (esp_ok, body text))
      × (let (err, p') = settings_post_handler (length text) (some text) true true has_group p in
          (err ≡ esp_ok) × (p'.store.config ≡ cfg))
settings_restored buf cfg has_group p sized w server name short =
    let text = settings_json cfg in
    let taken = settings_post_taken text has_group p (omega arith) in
    (
      text,
      settings_get_handler_lem buf cfg sized ∙ (rw (lt→ltb (length text) 256 (omega arith)) refl),
      (
        taken.0,
        taken.1
            ∙ ap (λ t. posted t p.store.config) (c_string-settings_json cfg server name)
            ∙ posted-settings_json cfg p.store.config w,
      ),
    )
