-- ===== src/Tls.antt =====
-- The TLS client of main/network/tls_client.c; esp_tls is a parameter, by what its calls answer.
mod Write
mod Sessions
mod Tests
use esp32_deskflow.Prelude.{
  ℕ, zero, suc, ◌+◌, ◌-◌, min, ℤ, pos, negsuc, Bool, true, false, not, ◌&&◌, ◌||◌, List, [], ◌∷◌,
  ◌++◌, length, slice, leb, ltb, if◌then◌else◌, Option, none, some,
}
use esp32_deskflow.Esp.{EspErr, esp_ok, esp_fail, esp_err_not_found}
use esp32_deskflow.Config.Certs.{Certs}

abbrev pub tls_write_max_retries : ℕ
tls_write_max_retries = 30

-- `struct tls_client`. `tls` is whether the pointer to the session is set; `opened` and `destroyed`
-- count the sessions of esp_tls_init and the calls of esp_tls_conn_destroy.
pub record TlsClient : Type 0 where
  pub server : List ℕ
  pub port : ℕ
  pub connected : Bool
  pub tls : Bool
  pub opened : ℕ
  pub destroyed : ℕ

-- What a call of esp_tls_conn_read or esp_tls_conn_write answers: at least one byte (`moved k` is
-- `k + 1`, or as many as are asked for), 0, a time-out or another error.
pub data Answer : Type 0 where
  moved : ℕ → Answer
  ended timed_out failed : Answer

unfoldable pub tls_client_create : List ℕ → ℕ → TlsClient
tls_client_create server port = record {
  server = server;
  port = port;
  connected = false;
  tls = false;
  opened = 0;
  destroyed = 0;
}

-- `esp_tls_conn_destroy(client->tls); client->tls = NULL;`
abbrev pub destroy_session : TlsClient → TlsClient
destroy_session c = record c { tls = false; destroyed = c.destroyed + 1 }

unfoldable pub tls_client_close : TlsClient → TlsClient
tls_client_close c = record (if c.tls then destroy_session c else c) { connected = false }

-- The error paths of reading and writing.
abbrev pub dropped : TlsClient → TlsClient
dropped c = record (destroy_session c) { connected = false }

-- `buf != NULL`
abbrev pub is_there : Option (List ℕ) → Bool
is_there none = false
is_there (some buf) = true

-- `tls_client_connect`, with the buffers of main/config/config.c, whether esp_tls_init succeeds, and
-- whether esp_tls_conn_new_sync returns 1.
unfoldable pub tls_client_connect : Certs → Bool → Bool → TlsClient → EspErr × TlsClient
unfolding tls_client_close
tls_client_connect certs init_ok conn_ok client =
    let c = if client.connected then tls_client_close client else client in
    if not (is_there certs.ca.buf)
    then (esp_err_not_found, c)
    else if not (is_there certs.client_cert.buf) || not (is_there certs.client_key.buf)
    then (esp_err_not_found, c)
    else if not init_ok
    then (esp_fail, c)
    else if not conn_ok
    then (esp_fail, record c { opened = c.opened + 1; destroyed = c.destroyed + 1 })
    else (esp_ok, record c { opened = c.opened + 1; tls = true; connected = true })

-- `tls_client_read` for up to `len` bytes.
unfoldable pub tls_client_read : Answer → ℕ → TlsClient → ℤ × TlsClient
tls_client_read answer len c = if not c.connected || not c.tls then (negsuc 0, c) else elim answer [
  | moved k ↦ (pos (min (suc k) len), c)
  | ended ↦ (pos 0, dropped c)
  | timed_out ↦ (negsuc 1, c)
  | failed ↦ (negsuc 0, dropped c)
]

-- The loop of `tls_client_write`: the result, the client, and the bytes that esp_tls took; none when
-- the answers end first.
unfoldable pub write_loop :
    List ℕ → List Answer → ℕ → ℕ → TlsClient → Option (ℤ × TlsClient × List ℕ)
write_loop buf [] offset retries c =
    if ltb offset (length buf) then none else some (pos (length buf), c, [])
write_loop buf (moved k ∷ answers) offset retries c =
    let n = min (suc k) (length buf - offset) in
    let rest = write_loop buf answers (offset + n) 0 c in
    if ltb offset (length buf)
    then (elim rest [
      | none ↦ none
      | some (result, c', sent) ↦ some (result, c', slice buf offset n ++ sent)
    ])
    else some (pos (length buf), c, [])
write_loop buf (ended ∷ answers) offset retries c =
    if ltb offset (length buf)
    then some (pos offset, record c { connected = false }, [])
    else some (pos (length buf), c, [])
write_loop buf (timed_out ∷ answers) offset retries c =
    let again = write_loop buf answers offset (retries + 1) c in
    if ltb offset (length buf)
    then (if leb tls_write_max_retries (retries + 1) then some (negsuc 0, dropped c, []) else again)
    else some (pos (length buf), c, [])
write_loop buf (failed ∷ answers) offset retries c =
    if ltb offset (length buf)
    then some (pos offset, dropped c, [])
    else some (pos (length buf), c, [])

unfoldable pub tls_client_write : List ℕ → List Answer → TlsClient → Option (ℤ × TlsClient × List ℕ)
unfolding write_loop
tls_client_write buf answers c =
    if not c.connected || not c.tls then some (negsuc 0, c, []) else write_loop buf answers 0 0 c
