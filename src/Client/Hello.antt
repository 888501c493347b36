-- ===== src/Client/Hello.antt =====
-- The handshake of main/barrier/barrier_client.c.
use esp32_deskflow.Prelude.{
  ℕ, ◌+◌, ℤ, pos, ltb_ℤ, List, [], ◌∷◌, length, take, set, Option, some, none, ltb, leb, not,
  if◌then◌else◌, memcmp_eq,
}
use esp32_deskflow.Esp.{is_ok, EspErr, esp_ok, esp_fail, Outcome, done, error, fault}
use esp32_deskflow.Io.{io_read_u32_be, io_write_u16_be, io_write_u32_be}
use esp32_deskflow.Client.Read.{Conn, tls_read_full}

-- "Barrier"
abbrev pub barrier_server_hello : List ℕ
barrier_server_hello = 66 ∷ 97 ∷ 114 ∷ 114 ∷ 105 ∷ 101 ∷ 114 ∷ []

abbrev pub barrier_client_major : ℕ
barrier_client_major = 1

abbrev pub barrier_client_minor : ℕ
barrier_client_minor = 6

-- `memcpy(&buf[i], bytes, length bytes)`.
abbrev pub write_bytes : List ℕ → ℕ → List ℕ → List ℕ
write_bytes buf i [] = buf
write_bytes buf i (b ∷ bs) = write_bytes (set buf i b) (i + 1) bs

-- The client's hello for a device name, in the write buffer, and its length.
unfoldable pub client_hello : List ℕ → List ℕ → List ℕ × ℕ
client_hello name buf =
    let buf = io_write_u32_be buf 0 (7 + 2 + 2 + 4 + length name) in
    let buf = write_bytes buf 4 barrier_server_hello in
    let buf = io_write_u16_be buf 11 barrier_client_major in
    let buf = io_write_u16_be buf 13 barrier_client_minor in
    let buf = io_write_u32_be buf 15 (length name) in (write_bytes buf 19 name, 19 + length name)

-- The times at which the three reads begin, the results of tls_client_connect and tls_client_write,
-- and the configured device name without its terminator.
pub record Greeting : Type 0 where
  pub length_ms : ℕ
  pub payload_ms : ℕ
  pub version_ms : ℕ
  pub connect : EspErr
  pub sent : ℤ
  pub device_name : List ℕ

-- What the handshake leaves: its status, or a read outside the buffer, with both buffers, what was
-- handed to tls_client_write, and the connection.
pub record Greeted : Type 0 where
  pub status : Outcome EspErr
  pub read_buf : List ℕ
  pub write_buf : List ℕ
  pub written : List (List ℕ)
  pub conn : Conn

abbrev refused : Outcome EspErr → List ℕ → List ℕ → Conn → Option Greeted
refused status read_buf write_buf conn = some (record {
  status = status;
  read_buf = read_buf;
  write_buf = write_buf;
  written = [];
  conn = conn;
})

-- A failed read ends the handshake with ESP_FAIL.
abbrev after_read :
    Option (EspErr × List ℕ × Conn) → List ℕ → (List ℕ → Conn → Option Greeted) → Option Greeted
after_read none write_buf next = none
after_read (some (err, read_buf, conn)) write_buf next =
    if is_ok err then next read_buf conn else refused (done esp_fail) read_buf write_buf conn

-- Step 4: the client's hello.
unfoldable pub answer_hello : Greeting → List ℕ → List ℕ → Conn → Option Greeted
unfolding client_hello
answer_hello g read_buf write_buf conn =
    let (write_buf', len) = client_hello g.device_name write_buf in
    some (record {
      status = done (if ltb_ℤ g.sent (pos 0) then esp_fail else esp_ok);
      read_buf = read_buf;
      write_buf = write_buf';
      written = take len write_buf' ∷ [];
      conn = conn;
    })

-- Steps 2 and 3 behind the length, whose value is checked and then read.
unfoldable pub read_hello : Greeting → ℕ → List ℕ → List ℕ → Conn → Option Greeted
unfolding answer_hello tls_read_full
read_hello g hello_len read_buf write_buf conn =
    if ltb hello_len 7
    then refused (done esp_fail) read_buf write_buf conn
    else if ltb 64 hello_len
    then refused (done esp_fail) read_buf write_buf conn
    else after_read (tls_read_full g.payload_ms hello_len read_buf conn) write_buf λ buf conn'.
      if not (memcmp_eq (take 7 buf) barrier_server_hello)
      then refused (done esp_fail) buf write_buf conn'
      else if leb (7 + 4) hello_len
      then answer_hello g buf write_buf conn'
      else after_read (tls_read_full g.version_ms 4 buf conn') write_buf
          λ buf' conn''. answer_hello g buf' write_buf conn''

unfoldable pub handshake : Greeting → List ℕ → List ℕ → Conn → Option Greeted
unfolding read_hello tls_read_full
handshake g read_buf write_buf conn =
    if not (is_ok g.connect)
    then refused (done g.connect) read_buf write_buf conn
    else after_read (tls_read_full g.length_ms 4 read_buf conn) write_buf λ buf conn'.
      elim (io_read_u32_be buf 0) [
        | done hello_len ↦ read_hello g hello_len buf write_buf conn'
        | error e ↦ refused (error e) buf write_buf conn'
        | fault ↦ refused fault buf write_buf conn'
      ]
