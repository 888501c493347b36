-- ===== src/Web/Uploaded.antt =====
-- The request of the settings page's certificate form in main/web/web_server.c.
use esp32_deskflow.Prelude.{
  ℕ, ◌≤◌, ◌<◌, ◌&&◌, ◌||◌, ◌≡◌, refl, ap, ◌∙◌, arith, ◌==◌, Bool, true, false, ltb, List, [], ◌∷◌,
  ◌++◌, length, if◌then◌else◌, some, codes, lt→ltb,
}
use esp32_deskflow.Esp.{esp_ok, esp_fail, is_ok, done}
use esp32_deskflow.Config.Fields.{free_of}
use esp32_deskflow.Config.Certs.{Cert, Certs, Uploading, config_upload_cert}
use esp32_deskflow.Web.{c_string, behind, until}
use esp32_deskflow.Web.Searched.{behind-quoted, until-plain, c_string-append}
use esp32_deskflow.Web.Serial.{internal_error, body}
use esp32_deskflow.Web.Certificates.{
  before, Uploads, uploaded, upload_found, ended_by, upload_fields, upload_answered,
  cert_upload_handler,
}

-- A request body with the three texts in it as they are.
abbrev pub upload_json : List ℕ → List ℕ → List ℕ → List ℕ
upload_json ca cert key =
    codes "{\"ca\":\""
    ++ (ca ++ (codes "\",\"cert\":\"" ++ (cert ++ (codes "\",\"key\":\"" ++ (key ++ codes "\"}")))))

before-plain :
    (s rest : List ℕ)
    → free_of (codes "\"") s ≡ true
    → before (codes "\",\"") (s ++ (codes "\",\"" ++ rest)) ≡ some s
before-plain [] rest plain = refl
before-plain (c ∷ s) rest plain =
    let other : (c == 34) ≡ false = ground arith in
    rw (other, before-plain s rest (ground arith)) refl

ca_found :
    (ca cert key : List ℕ)
    → free_of (codes "\"") ca ≡ true
    → ended_by (before (codes "\",\"")) (behind (codes "\"ca\":\"") (upload_json ca cert key))
      ≡ some ca
ca_found ca cert key plain = before-plain ca _ plain

cert_found :
    (ca cert key : List ℕ)
    → free_of (codes "\"") ca ≡ true
    → free_of (codes "\"") cert ≡ true
    → ended_by (before (codes "\",\"")) (behind (codes "\"cert\":\"") (upload_json ca cert key))
      ≡ some cert
cert_found ca cert key plain plain' =
    ap (ended_by (before (codes "\",\""))) (
      behind-quoted (codes "cert") (codes "\"") ca
        (codes "\"cert\":\"" ++ (cert ++ (codes "\",\"key\":\"" ++ (key ++ codes "\"}")))) refl
        plain)
    ∙ before-plain cert (codes "key\":\"" ++ (key ++ codes "\"}")) plain'

key_found :
    (ca cert key : List ℕ)
    → free_of (codes "\"") ca ≡ true
    → free_of (codes "\"") cert ≡ true
    → free_of (codes "\"") key ≡ true
    → ended_by (until 34) (behind (codes "\"key\":\"") (upload_json ca cert key)) ≡ some key
key_found ca cert key plain plain' plain'' =
    ap (ended_by (until 34)) (
      behind-quoted (codes "key") (codes "\"") ca
        (codes "\"cert\":\"" ++ (cert ++ (codes "\",\"key\":\"" ++ (key ++ codes "\"}")))) refl
        plain
      ∙ behind-quoted (codes "key") (codes "\"") cert (codes "\"key\":\"" ++ (key ++ codes "\"}"))
          refl plain')
    ∙ until-plain key (codes "}") plain''

-- An upload works when a stick is mounted, the file opens and malloc succeeds.
abbrev pub works : Uploading → Bool
works u = u.mounted && (u.opened && u.allocated)

-- What a slot of the certificates holds behind an upload.
abbrev pub stored : Uploading → List ℕ → Cert → Cert
stored u text old =
    if works u then record { buf = some (text ++ 0 ∷ []); len = length text } else old

uploaded-is_ok :
    (u : Uploading) (type : ℕ) (text : List ℕ) (s : Uploads)
    → type < 3
    → is_ok (uploaded u type text s).r ≡ works u
unfolding config_upload_cert
uploaded-is_ok u type text s h = rw (lt→ltb type 3 h) (ground arith)

uploaded-ca :
    (u : Uploading) (text : List ℕ) (s : Uploads)
    → (uploaded u 0 text s).certs ≡ record s.certs { ca = stored u text s.certs.ca }
unfolding config_upload_cert
uploaded-ca u text s = ground arith

uploaded-cert :
    (u : Uploading) (text : List ℕ) (s : Uploads)
    → (uploaded u 1 text s).certs
      ≡ record s.certs { client_cert = stored u text s.certs.client_cert }
unfolding config_upload_cert
uploaded-cert u text s = ground arith

uploaded-key :
    (u : Uploading) (text : List ℕ) (s : Uploads)
    → (uploaded u 2 text s).certs ≡ record s.certs { client_key = stored u text s.certs.client_key }
unfolding config_upload_cert
uploaded-key u text s = ground arith

upload_found-some :
    (u : Uploading) (type : ℕ) (text : List ℕ) (s : Uploads)
    → 0 < length text
    → upload_found u type (some text) s ≡ uploaded u type text s
upload_found-some u type [] s h = absurd (omega arith)
upload_found-some u type (c ∷ cs) s h = refl

-- A text: some characters, none of them a quotation mark or the terminator.
pub record IsField (text : List ℕ) : Type 0 where
  pub some_text : 0 < length text
  pub plain : free_of (codes "\"") text ≡ true
  pub ended : free_of (0 ∷ []) text ≡ true

module _ (ca cert key : List ℕ) (wa : IsField ca) (wc : IsField cert) (wk : IsField key) where
  c_string-upload_json : c_string (upload_json ca cert key) ≡ upload_json ca cert key
  c_string-upload_json =
      rw
        (
          c_string-append ca
              (codes "\",\"cert\":\"" ++ (cert ++ (codes "\",\"key\":\"" ++ (key ++ codes "\"}"))))
              wa.ended,
          c_string-append cert (codes "\",\"key\":\"" ++ (key ++ codes "\"}")) wc.ended,
          c_string-append key (codes "\"}") wk.ended,
        )
        refl

  upload_fields_lem :
      (u0 u1 u2 : Uploading) (s : Uploads)
      → upload_fields u0 u1 u2 (upload_json ca cert key) s
        ≡ uploaded u2 2 key (uploaded u1 1 cert (uploaded u0 0 ca s))
  unfolding upload_fields
  upload_fields_lem u0 u1 u2 s =
      ap
        (λ k. upload_found u2 2 k (
          upload_found u1 1
            (ended_by (before (codes "\",\""))
              (behind (codes "\"cert\":\"") (upload_json ca cert key)))
            (upload_found u0 0
              (ended_by (before (codes "\",\""))
                (behind (codes "\"ca\":\"") (upload_json ca cert key)))
              s)))
        (key_found ca cert key wa.plain wc.plain wk.plain)
      ∙ upload_found-some u2 2 key _ wk.some_text
      ∙ ap
          (λ k. uploaded u2 2 key (
            upload_found u1 1 k (
              upload_found u0 0
                (ended_by (before (codes "\",\""))
                  (behind (codes "\"ca\":\"") (upload_json ca cert key)))
                s)))
          (cert_found ca cert key wa.plain wc.plain)
      ∙ ap (uploaded u2 2 key) (upload_found-some u1 1 cert _ wc.some_text)
      ∙ ap (λ k. uploaded u2 2 key (uploaded u1 1 cert (upload_found u0 0 k s)))
          (ca_found ca cert key wa.plain)
      ∙ ap (λ t. uploaded u2 2 key (uploaded u1 1 cert t))
          (upload_found-some u0 0 ca s wa.some_text)

upload_answered_lem :
    (has_group ok : Bool) (s : Uploads)
    → is_ok s.r ≡ ok
    → (s' : Uploads) × (upload_answered has_group s
        ≡ (if ok then esp_ok else esp_fail, if ok then body (codes "ok") else internal_error, s'))
      × (s'.certs ≡ s.certs)
      × (s'.bits.reconnect ≡ (s.bits.reconnect || (ok && has_group)))
upload_answered_lem has_group true s h = (
  record s { bits = if has_group then record s.bits { reconnect = true } else s.bits },
  rw h refl,
  refl,
  ground arith,
)
upload_answered_lem has_group false s h = (s, rw h refl, refl, ground arith)

-- A request body with three texts that are not empty and have no quotation mark, in at most 4095
-- characters: each text is kept with a terminator exactly when its own upload works, and the other
-- slots stay; the request is answered by the last upload alone, and the bit for a reconnect is set when
-- that one works and the event group is there.
pub cert_upload_handler_lem :
    (ca cert key : List ℕ) (u0 u1 u2 : Uploading) (has_group : Bool) (s : Uploads)
    → IsField ca
    → IsField cert
    → IsField key
    → length (upload_json ca cert key) ≤ 4095
    → (s' : Uploads) × (cert_upload_handler
          (length (upload_json ca cert key))
          (some (upload_json ca cert key))
          u0
          u1
          u2
          has_group
          s
        ≡ done (
          if works u2 then esp_ok else esp_fail,
          if works u2 then body (codes "ok") else internal_error,
          s',
        ))
      × (s'.certs ≡ record {
        ca = stored u0 ca s.certs.ca;
        client_cert = stored u1 cert s.certs.client_cert;
        client_key = stored u2 key s.certs.client_key;
      })
      × (s'.bits.reconnect ≡ (s.bits.reconnect || (works u2 && has_group)))
unfolding cert_upload_handler
cert_upload_handler_lem ca cert key u0 u1 u2 has_group s wa wc wk short =
    let text = upload_json ca cert key in
    let s1 = uploaded u0 0 ca (record s { r = esp_ok }) in
    let s2 = uploaded u1 1 cert s1 in
    let s3 = uploaded u2 2 key s2 in
    let room : ltb 4096 (length text) ≡ false = ground arith in
    let inside : ltb (length text) 4096 ≡ true = ground arith in
    let fields =
      ap (λ t. upload_fields u0 u1 u2 t (record s { r = esp_ok }))
        (c_string-upload_json ca cert key wa wc wk)
      ∙ upload_fields_lem ca cert key wa wc wk u0 u1 u2 (record s { r = esp_ok }) in
    let ok = uploaded-is_ok u2 2 key s2 (omega arith) in
    let done_ : cert_upload_handler (length text) (some text) u0 u1 u2 has_group s
        ≡ done (upload_answered has_group s3) =
      rw (room, inside, fields) refl in
    let certs : s3.certs ≡ record {
      ca = stored u0 ca s.certs.ca;
      client_cert = stored u1 cert s.certs.client_cert;
      client_key = stored u2 key s.certs.client_key;
    } =
      uploaded-key u2 key s2
      ∙ ap (λ (c : Certs). record c { client_key = stored u2 key c.client_key })
          (uploaded-cert u1 cert s1
            ∙ ap (λ (c : Certs). record c { client_cert = stored u1 cert c.client_cert })
                (uploaded-ca u0 ca (record s { r = esp_ok }))) in
    let (s', answer, kept, bit) = upload_answered_lem has_group (works u2) s3 ok in
    (s', done_ ∙ ap done answer, kept ∙ certs, bit)
