-- ===== src/Log.antt =====
-- The log ring buffer of main/web/web_server.c with its web socket, and the redirection of log
-- output into it in main/main.c.
mod Ring
mod Queue
mod Overread
mod Overlap
mod Clients
mod Tests
use esp32_deskflow.Prelude.{
  ℕ, zero, suc, ◌+◌, ◌-◌, ◌*◌, ◌/◌, ◌%◌, ℤ, pos, negsuc, eqb_ℤ, Bool, true, false, not, List, [],
  ◌∷◌, ◌++◌, length, take, drop, slice, set, replicate, leb, ltb, ◌==◌, if◌then◌else◌, codes,
}
use esp32_deskflow.Esp.{EspErr, esp_ok, esp_fail, is_ok, Outcome, done, error, fault, ◌>>=◌}

abbrev pub log_ring_buf_size : ℕ
log_ring_buf_size = 2048

-- `s_log_ring` with its two indices, and `g_log_ws_ctx` without the server's handle. The volatile
-- indices have one writer at a time here; Overlap has two pushes at the same time.
pub record LogRing : Type 0 where
  pub ring : List ℕ
  pub head : ℕ
  pub tail : ℕ
  pub fd : ℤ
  pub connected : Bool

-- The static variables before the first call.
unfoldable pub log_ring_init : LogRing
log_ring_init = record {
  ring = replicate log_ring_buf_size 0;
  head = 0;
  tail = 0;
  fd = pos 0;
  connected = false;
}

-- What the two calls of httpd_ws_send_frame_async return.
pub record Sends : Type 0 where
  pub first : EspErr
  pub second : EspErr

-- The frames that were sent, and the ring.
unfoldable pub web_log_drain : Sends → LogRing → List (List ℕ) × LogRing
web_log_drain s r =
    if r.tail == r.head
    then ([], r)
    else if leb r.tail r.head
    then (if is_ok s.first
        then (slice r.ring r.tail (r.head - r.tail) ∷ [], record r { tail = r.head })
        else ([], r))
    else if not (is_ok s.first)
    then ([], r)
    else if is_ok s.second
    then (
      slice r.ring r.tail (log_ring_buf_size - r.tail) ∷ slice r.ring 0 r.head ∷ [],
      record r { tail = r.head },
    )
    else (slice r.ring r.tail (log_ring_buf_size - r.tail) ∷ [], r)

-- The loop of `web_log_push`, for `left` more bytes of the memory at `data`.
unfoldable pub push_loop : ℕ → List ℕ → LogRing → Outcome LogRing
push_loop zero bytes r = done r
push_loop (suc left) [] r = if (r.head + 1) % log_ring_buf_size == r.tail then done r else fault
push_loop (suc left) (b ∷ bytes) r =
    let next = (r.head + 1) % log_ring_buf_size in
    let rest = push_loop left bytes (record r { ring = set r.ring r.head b; head = next }) in
    if next == r.tail then done r else rest

abbrev pub used : LogRing → ℕ
used r = if leb r.tail r.head then r.head - r.tail else log_ring_buf_size - r.tail + r.head

-- The end of `web_log_push`: above 60 % the ring is drained.
unfoldable pub drain_if_high : Sends → LogRing → List (List ℕ) × LogRing
unfolding web_log_drain
drain_if_high s r = if ltb (log_ring_buf_size * 3 / 5) (used r) then web_log_drain s r else ([], r)

unfoldable pub web_log_push : Sends → List ℕ → ℕ → LogRing → Outcome (List (List ℕ) × LogRing)
unfolding push_loop drain_if_high
web_log_push s bytes len r =
    if not r.connected
    then done ([], r)
    else push_loop len bytes r >>= λ r'. done (drain_if_high s r')

abbrev pub log_ws_hello : List ℕ
log_ws_hello = codes "[log_ws] connected, streaming debug log...\n"

-- `log_ws_handler`, with the socket of the request and the result of httpd_ws_recv_frame.
unfoldable pub log_ws_handler :
    Sends → ℤ → EspErr → LogRing → Outcome (EspErr × List (List ℕ) × LogRing)
unfolding web_log_push
log_ws_handler s fd received r =
    let greeted : Outcome (List (List ℕ) × LogRing) =
      if not (eqb_ℤ fd r.fd)
      then web_log_push s log_ws_hello (length log_ws_hello)
          (record r { fd = fd; connected = true; tail = r.head })
      else done ([], r) in
    greeted >>= λ p. done (
      if is_ok received
      then (esp_ok, p.0, p.1)
      else if eqb_ℤ fd p.1.fd
      then (received, p.0, record p.1 { connected = false; fd = negsuc 0 })
      else (received, p.0, p.1))

-- `esp_log_ws_redirect` of main/main.c for a line that formats to `text`: `buf` holds its first 255
-- bytes and a terminator, `stale` what the rest of the 256 bytes held before; the return value of
-- vsnprintf is the length of the whole text. The copy to the UART is left out.
unfoldable pub esp_log_ws_redirect :
    Sends → List ℕ → List ℕ → LogRing → Outcome (List (List ℕ) × LogRing)
unfolding web_log_push
esp_log_ws_redirect s text stale r =
    let buf = take 256 (take 255 text ++ 0 ∷ stale) in
    if r.connected
    then (if ltb 0 (length text) then web_log_push s buf (length text) r else done ([], r))
    else done ([], r)
