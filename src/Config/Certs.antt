-- ===== src/Config/Certs.antt =====
-- The certificate buffers of main/config/config.c.
pub mod Strip
pub mod Pem
pub mod Upload
use esp32_deskflow.Prelude.{
  ℕ, zero, suc, ◌+◌, ◌-◌, Bool, true, false, not, ◌||◌, List, [], ◌∷◌, ◌++◌, length, take, set,
  get_or, ltb, ◌==◌, if◌then◌else◌, Option, none, some,
}
use esp32_deskflow.Esp.{
  EspErr, esp_ok, esp_fail, esp_err_no_mem, esp_err_not_found, esp_err_invalid_arg, Outcome, done,
  fault, ◌>>=◌,
}

-- A buffer of the heap with the length that is noted for it.
pub record Cert : Type 0 where
  pub buf : Option (List ℕ)
  pub len : ℕ

pub record Certs : Type 0 where
  pub ca : Cert
  pub client_cert : Cert
  pub client_key : Cert

-- What reading a file meets: its bytes, if it opens, whether malloc succeeds, and the byte that the
-- new buffer holds behind them. fread returns the whole file.
pub record PemFile : Type 0 where
  pub content : Option (List ℕ)
  pub allocated : Bool
  pub stale : ℕ

-- `b[i] = v` in an array of the heap.
abbrev pub store : List ℕ → ℕ → ℕ → Outcome (List ℕ)
store b i v = if ltb i (length b) then done (set b i v) else fault

-- The loop of `_read_pem` that strips carriage returns, `left` bytes before its end.
unfoldable pub strip : ℕ → ℕ → ℕ → List ℕ → ℕ × List ℕ
strip zero i w b = (w, b)
strip (suc left) i w b =
    let kept = strip left (i + 1) (w + 1) (set b w (get_or b i 0)) in
    let dropped = strip left (i + 1) w b in if not (get_or b i 0 == 13) then kept else dropped

-- The number of bytes and the array, with a newline put behind unless there is one.
abbrev pub newline_ended : ℕ → List ℕ → Outcome (ℕ × List ℕ)
newline_ended w b =
    if (w == 0) || not (get_or b (w - 1) 0 == 10)
    then store b w 10 >>= (λ b'. done (w + 1, b'))
    else done (w, b)

-- The terminator is put behind that and counted.
abbrev pub terminate : ℕ × List ℕ → Outcome Cert
terminate (w, b) = newline_ended w b >>= λ p.
    store p.1 p.0 0 >>= λ b'. done (record { buf = some b'; len = p.0 + 1 })

-- `_read_pem`; none is its -1.
unfoldable pub read_pem : PemFile → Outcome (Option Cert)
unfolding strip
read_pem f = elim f.content [
  | none ↦ done none
  | some [] ↦ done none
  | some (c ∷ cs) ↦
      if f.allocated
      then terminate (strip (length (c ∷ cs)) 0 0 (c ∷ cs ++ f.stale ∷ []))
        >>= (λ cert. done (some cert))
      else done none
]

abbrev pub no_cert : Cert
no_cert = record { buf = none; len = 0 }

unfoldable pub config_free_certs : Certs → Certs
config_free_certs certs = record { ca = no_cert; client_cert = no_cert; client_key = no_cert }

-- A buffer that was freed before is filled if the file was read.
abbrev pub filled : Option Cert → Cert → Cert
filled none old = old
filled (some cert) old = cert

abbrev pub loaded : Option Cert → Bool
loaded none = false
loaded (some cert) = true

-- `config_load_certs`, with the three files.
unfoldable pub config_load_certs :
    Bool → PemFile → PemFile → PemFile → Certs → Outcome (EspErr × Certs)
unfolding config_free_certs read_pem
config_load_certs mounted ca_file cert_file key_file certs =
    let freed = config_free_certs certs in
    if mounted
    then (read_pem ca_file >>= λ ca. read_pem cert_file >>= λ cert. read_pem key_file >>= λ key.
        done (
          if loaded ca || (loaded cert || loaded key) then esp_ok else esp_err_not_found,
          record {
            ca = filled ca freed.ca;
            client_cert = filled cert freed.client_cert;
            client_key = filled key freed.client_key;
          },
        ))
    else done (esp_err_not_found, freed)

-- What `config_upload_cert` meets: usb_host_msc_is_mounted, fopen and malloc.
pub record Uploading : Type 0 where
  pub mounted : Bool
  pub opened : Bool
  pub allocated : Bool

-- The slot of `type`, which is 0, 1 or 2.
abbrev pub put : ℕ → Cert → Certs → Certs
put zero cert certs = record certs { ca = cert }
put (suc zero) cert certs = record certs { client_cert = cert }
put (suc (suc n)) cert certs = record certs { client_key = cert }

-- The error, the bytes that the file of `type` holds when it was written, and the buffers. A negative
-- `type` is refused as a large one is.
unfoldable pub config_upload_cert :
    Uploading → ℕ → List ℕ → Certs → EspErr × Option (List ℕ) × Certs
config_upload_cert u type data' certs =
    if ltb type 3
    then (if u.mounted
        then (if u.opened
            then (if u.allocated
                then (
                  esp_ok,
                  some data',
                  put type (record { buf = some (data' ++ 0 ∷ []); len = length data' }) certs,
                )
                else (esp_err_no_mem, some data', certs))
            else (esp_fail, none, certs))
        else (esp_err_not_found, none, certs))
    else (esp_err_invalid_arg, none, certs)
