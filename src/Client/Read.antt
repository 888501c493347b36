-- ===== src/Client/Read.antt =====
-- Reading from the connection in main/barrier/barrier_client.c: tls_read_full and read_packet.
use esp32_deskflow.Prelude.{
  ℕ, zero, suc, ◌+◌, ◌-◌, ◌%◌, ◌^◌, Bool, List, [], ◌∷◌, ◌++◌, length, take, drop, Option, some,
  none, ltb, leb, if◌then◌else◌, min,
}
use esp32_deskflow.Esp.{
  is_ok, EspErr, esp_ok, esp_fail, esp_err_timeout, esp_err_invalid_size, Outcome, done, error,
  fault,
}
use esp32_deskflow.Io.{io_read_u32_be}
use esp32_deskflow.Packet.{Packet}
use esp32_deskflow.Packet.Parse.{packet_parse}
use esp32_deskflow.Client.{barrier_read_buf_size}

-- What one call of tls_client_read meets: at most `n + 1` bytes are ready; or it returns
-- TLS_ERR_TIMEOUT, with the time that then is and whether a notification interrupts the wait that
-- follows; or it returns another negative number.
pub data Answer : Type 0 where
  ready : ℕ → Answer
  timed_out : ℕ → Bool → Answer
  failed : Answer

-- The bytes that the server has sent and the client has not read, and the answers to come.
pub record Conn : Type 0 where
  pub incoming : List ℕ
  pub answers : List Answer

abbrev pub conn_at : List ℕ → List Answer → Conn
conn_at incoming answers = record { incoming = incoming; answers = answers }

-- The reading loop, for `left` more bytes behind `got`. A missing result means that the loop still
-- waits for an answer. Of a chunk at most `left` bytes are taken; none at all is the return value 0
-- of a closed connection. Both loops of the source have this form.
unfoldable pub read_loop :
    ℕ → ℕ → List Answer → ℕ → List ℕ → List ℕ → Option (EspErr × List ℕ × Conn)
read_loop start_ms timeout_ms answers zero got incoming =
    some (esp_ok, got, conn_at incoming answers)
read_loop start_ms timeout_ms [] (suc left) got incoming = none
read_loop start_ms timeout_ms (ready n ∷ answers) (suc left) got [] =
    some (esp_fail, got, conn_at [] answers)
read_loop start_ms timeout_ms (ready n ∷ answers) (suc left) got (b ∷ incoming) =
    let size = min (suc n) (suc left) in
    let chunk = take size (b ∷ incoming) in
    read_loop start_ms timeout_ms answers (suc left - length chunk) (got ++ chunk)
      (drop size (b ∷ incoming))
read_loop start_ms timeout_ms (timed_out now notified ∷ answers) (suc left) got incoming =
    let rest = read_loop start_ms timeout_ms answers (suc left) got incoming in
    let stopped = conn_at incoming answers in
    if leb timeout_ms ((now + 2 ^ 64 - start_ms) % 2 ^ 64)
    then some (esp_err_timeout, got, stopped)
    else if notified
    then some (esp_fail, got, stopped)
    else rest
read_loop start_ms timeout_ms (failed ∷ answers) (suc left) got incoming =
    some (esp_fail, got, conn_at incoming answers)

abbrev pub barrier_handshake_timeout_ms : ℕ
barrier_handshake_timeout_ms = 5000

-- `len` bytes to the front of the array `buf`.
unfoldable pub tls_read_full : ℕ → ℕ → List ℕ → Conn → Option (EspErr × List ℕ × Conn)
unfolding read_loop
tls_read_full start_ms len buf conn =
    elim (read_loop start_ms barrier_handshake_timeout_ms conn.answers len [] conn.incoming) [
      | none ↦ none
      | some (err, got, conn') ↦ some (err, got ++ drop (length got) buf, conn')
    ]

-- The second half of read_packet, when the length prefix has been read.
unfoldable pub read_payload :
    ℕ → ℕ → List ℕ → List ℕ → Conn → Option (Outcome Packet × List ℕ × Conn)
unfolding read_loop
read_payload start_ms timeout_ms header buf conn = elim (io_read_u32_be header 0) [
  | error e ↦ some (error e, buf, conn)
  | fault ↦ some (fault, buf, conn)
  | done payload_len ↦
      if ltb (barrier_read_buf_size - 4) payload_len
      then some (error esp_err_invalid_size, buf, conn)
      else if ltb payload_len 4
      then some (error esp_err_invalid_size, buf, conn)
      else elim (read_loop start_ms timeout_ms conn.answers payload_len [] conn.incoming) [
        | none ↦ none
        | some (err, got, conn') ↦
            let read_buf = header ++ got ++ drop (4 + length got) buf in
            some (
              (if is_ok err then packet_parse read_buf (4 + payload_len) else error err),
              read_buf,
              conn',
            )
      ]
]

unfoldable pub read_packet : ℕ → ℕ → List ℕ → Conn → Option (Outcome Packet × List ℕ × Conn)
unfolding read_loop read_payload
read_packet start_ms timeout_ms buf conn =
    elim (read_loop start_ms timeout_ms conn.answers 4 [] conn.incoming) [
      | none ↦ none
      | some (err, header, conn') ↦
          if is_ok err
          then read_payload start_ms timeout_ms header buf conn'
          else some (error err, buf, conn')
    ]
