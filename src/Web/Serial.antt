-- ===== src/Web/Serial.antt =====
-- The requests of main/web/web_server.c that reach the UART of the Grove connector.
use esp32_deskflow.Prelude.{
  ℕ, suc, ◌+◌, ◌-◌, ◌*◌, ℤ, ◌==◌, ltb, Bool, not, List, [], ◌∷◌, ◌++◌, length, if◌then◌else◌,
  Option, none, some, codes,
}
use esp32_deskflow.Esp.{EspErr, esp_ok, esp_err_no_mem, Outcome, done, ◌>>=◌}
use esp32_deskflow.Config.Text.{print_u}
use esp32_deskflow.Grove.{grove_uart_read, grove_uart_write}
use esp32_deskflow.Web.Printing.{snprintf_at, httpd_resp_send}

-- What the browser is answered.
pub data Answer : Type 0 where
  bad_request too_large internal_error nothing : Answer
  body : List ℕ → Answer

abbrev pub ok_body : List ℕ → Outcome (EspErr × Answer)
ok_body text = done (esp_ok, body text)

-- `snprintf(..., "%s%d", i ? "," : "", buf[i])`
abbrev pub byte_text : ℕ → ℕ → List ℕ
byte_text i b = (if i == 0 then [] else codes ",") ++ print_u b

-- The loop of `uart_read_handler` from index `i` on, with what it has printed so far.
unfoldable pub print_bytes : ℕ → List ℕ → ℕ → ℕ → List ℕ → Outcome (ℕ × List ℕ)
print_bytes i [] resp_size n resp = done (n, resp)
print_bytes i (b ∷ bytes) resp_size n resp =
    let printed = snprintf_at n (byte_text i b) resp >>= λ r.
    print_bytes (suc i) bytes resp_size (n + length (byte_text i b)) r in
    if ltb n (resp_size - 6) then printed else done (n, resp)

-- The two calls of malloc, with what a new array holds.
pub record Heap : Type 0 where
  pub buf_allocated : Bool
  pub resp_allocated : Bool
  pub content : ℕ → List ℕ

-- `uart_read_handler`, with what uart_read_bytes gives.
unfoldable pub uart_read_handler : Heap → Option (List ℕ) → Outcome (EspErr × Answer)
unfolding print_bytes grove_uart_read
uart_read_handler heap received =
    let bytes = grove_uart_read received in
    let resp_size = length bytes * 5 + 32 in
    let tail = codes "],\"count\":" ++ (print_u (length bytes) ++ codes "}") in
    if not heap.buf_allocated
    then done (esp_err_no_mem, nothing)
    else if not heap.resp_allocated
    then done (esp_err_no_mem, nothing)
    else (snprintf_at 0 (codes "{\"bytes\":[") (heap.content resp_size) >>= λ resp.
        print_bytes 0 bytes resp_size 10 resp >>= λ p.
        snprintf_at p.0 tail p.1 >>= λ resp'. httpd_resp_send resp' (p.0 + length tail) >>= ok_body)

-- `uart_write_handler`, with the announced length, what httpd_req_recv gave (none for an error or
-- nothing), and the result of uart_write_bytes: the error, the answer, and what grove_uart_write returned,
-- at which the handler does not look.
unfoldable pub uart_write_handler : ℕ → Option (List ℕ) → ℤ → EspErr × Answer × Option EspErr
unfolding grove_uart_write
uart_write_handler content_len received written =
    if ltb 4096 content_len then (esp_ok, too_large, none) else elim received [
      | none ↦ (esp_ok, bad_request, none)
      | some text ↦ (
        esp_ok,
        body (codes "{\"written\":" ++ (print_u (length text) ++ codes "}")),
        some (grove_uart_write written),
      )
    ]
