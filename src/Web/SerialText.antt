-- ===== src/Web/SerialText.antt =====
-- The response of uart_read_handler in main/web/web_server.c.
use esp32_deskflow.Prelude.{
  ℕ, zero, suc, ◌+◌, ◌-◌, ◌*◌, ◌/◌, ◌%◌, ◌≤◌, ◌<◌, ◌==◌, ◌≡◌, refl, sym, ap, ◌∙◌, arith, inl, inr,
  ltb, Bool-cases, true, false, List, [], ◌∷◌, ◌++◌, length, length-append, append_assoc,
  append-nil, take-append_all, Option, codes, IsBytes, le→ltb,
}
use esp32_deskflow.Esp.{esp_ok, done, ◌>>=◌}
use esp32_deskflow.Config.Text.{decimal, print_u}
use esp32_deskflow.Grove.{grove_uart_read}
use esp32_deskflow.Web.Printing.{
  snprintf_at, snprintf_at-append, httpd_resp_send, Printed, snprintf-Printed,
}
use esp32_deskflow.Web.Serial.{body, ok_body, byte_text, print_bytes, Heap, uart_read_handler}

length-decimal : (digits n : ℕ) → length (decimal digits n) ≤ digits
unfolding decimal
length-decimal zero n = omega arith
length-decimal (suc digits) n = elim (Bool-cases (ltb n 10)) [
  | inl one ↦ rw one (omega arith)
  | inr more ↦ rw more (
      omega (
        arith,
        length-decimal digits (n / 10),
        length-append (decimal digits (n / 10)) ((48 + n % 10) ∷ []),
      ))
]

-- A number of `d` digits is printed with at most `d`.
length-decimal_small : (n : ℕ) → n < 256 → length (decimal 10 n) ≤ 3
unfolding decimal
length-decimal_small n h = ground (arith)

length-byte_text : (i b : ℕ) → b < 256 → length (byte_text i b) ≤ 4
length-byte_text i b h = elim (Bool-cases (i == 0)) [
  | inl first ↦ rw first (omega (arith, length-decimal_small b h))
  | inr later ↦ rw later (omega (arith, length-decimal_small b h))
]

-- The elements from index `i` on.
abbrev bytes_text : ℕ → List ℕ → List ℕ
bytes_text i [] = []
bytes_text i (b ∷ bytes) = byte_text i b ++ bytes_text (suc i) bytes

length-bytes_text :
    (i : ℕ) (bytes : List ℕ) → IsBytes bytes → length (bytes_text i bytes) ≤ length bytes * 4
length-bytes_text i [] h = omega arith
length-bytes_text i (b ∷ bytes) (small, smalls) = omega (
  arith,
  length-append (byte_text i b) (bytes_text (suc i) bytes),
  length-byte_text i b small,
  length-bytes_text (suc i) bytes smalls,
)

-- The loop prints every element behind what is there.
record Looped (i : ℕ) (bytes : List ℕ) (size : ℕ) (acc buf : List ℕ) : Type 0 where
  rest : List ℕ
  printed :
      print_bytes i bytes size (length acc) (acc ++ buf)
      ≡ done (length (acc ++ bytes_text i bytes), (acc ++ bytes_text i bytes) ++ rest)
  room : length rest + length (bytes_text i bytes) ≡ length buf

print_bytes_step :
    (i b : ℕ) (bytes : List ℕ) (size : ℕ) (acc buf : List ℕ)
    → length acc + 6 < size
    → (p : Printed (byte_text i b) buf)
    → print_bytes i (b ∷ bytes) size (length acc) (acc ++ buf)
      ≡ print_bytes
          (suc i)
          bytes
          size
          (length (acc ++ byte_text i b))
          ((acc ++ byte_text i b) ++ p.rest)
unfolding print_bytes
print_bytes_step i b bytes size acc buf h p =
    let guard : ltb (length acc) (size - 6) ≡ true = ground arith in
    let wrote : snprintf_at (length acc) (byte_text i b) (acc ++ buf)
        ≡ done ((acc ++ byte_text i b) ++ p.rest) =
      snprintf_at-append acc (byte_text i b) buf
      ∙ ap (λ l. done (acc ++ l)) p.whole
      ∙ ap done (sym (append_assoc acc (byte_text i b) p.rest)) in
    rw (guard, wrote, length-append acc (byte_text i b)) refl

print_bytes-Looped :
    (i : ℕ) (bytes : List ℕ) (size : ℕ) (acc buf : List ℕ)
    → IsBytes bytes
    → length acc + length buf ≡ size
    → length bytes * 4 + 6 < length buf
    → Looped i bytes size acc buf
unfolding print_bytes
print_bytes-Looped i [] size acc buf h total room = record {
  rest = buf;
  printed = rw (append-nil acc) refl;
  room = omega arith;
}
print_bytes-Looped i (b ∷ bytes) size acc buf (small, smalls) total room =
    let p = snprintf-Printed (byte_text i b) buf (omega (arith, length-byte_text i b small)) in
    let rest =
      print_bytes-Looped (suc i) bytes size (acc ++ byte_text i b) p.rest smalls
        (omega (arith, length-append acc (byte_text i b), p.room))
        (omega (arith, length-byte_text i b small, p.room)) in
    record {
      rest = rest.rest;
      printed =
          print_bytes_step i b bytes size acc buf (omega arith) p
          ∙ rest.printed
          ∙ ap (λ l. done (length l, l ++ rest.rest))
              (append_assoc acc (byte_text i b) (bytes_text (suc i) bytes));
      room =
          omega
            (arith, rest.room, p.room, length-append (byte_text i b) (bytes_text (suc i) bytes));
    }

-- What is printed last fits, and the whole text is sent.
finished :
    (acc tail buf : List ℕ)
    → length tail < length buf
    → (snprintf_at (length acc) tail (acc ++ buf) >>= λ resp.
        httpd_resp_send resp (length acc + length tail) >>= ok_body)
      ≡ done (esp_ok, body (acc ++ tail))
finished acc tail buf h =
    let p = snprintf-Printed tail buf h in
    let wrote : snprintf_at (length acc) tail (acc ++ buf) ≡ done ((acc ++ tail) ++ p.rest) =
      snprintf_at-append acc tail buf
      ∙ ap (λ l. done (acc ++ l)) p.whole
      ∙ ap done (sym (append_assoc acc tail p.rest)) in
    let inside : ltb (length ((acc ++ tail) ++ p.rest)) (length (acc ++ tail)) ≡ false =
      le→ltb (length ((acc ++ tail) ++ p.rest)) (length (acc ++ tail))
        (omega (arith, length-append (acc ++ tail) p.rest)) in
    rw (wrote, sym (length-append acc tail), inside, take-append_all (acc ++ tail) p.rest) refl

-- The bytes in decimal, separated by commas.
abbrev pub joined : List ℕ → List ℕ
joined [] = []
joined (b ∷ []) = print_u b
joined (b ∷ c ∷ bytes) = print_u b ++ (codes "," ++ joined (c ∷ bytes))

abbrev pub byte_list_json : List ℕ → List ℕ
byte_list_json bytes =
    codes "{\"bytes\":["
    ++ (joined bytes ++ (codes "],\"count\":" ++ (print_u (length bytes) ++ codes "}")))

later_bytes :
    (i b : ℕ) (bytes : List ℕ) → bytes_text (suc i) (b ∷ bytes) ≡ codes "," ++ joined (b ∷ bytes)
later_bytes i b [] =
    let later : (suc i == 0) ≡ false = ground arith in
    rw later (ap (λ l. 44 ∷ l) (append-nil (print_u b)))
later_bytes i b (c ∷ bytes) =
    let later : (suc i == 0) ≡ false = ground arith in
    rw later (ap (λ l. 44 ∷ (print_u b ++ l)) (later_bytes (suc i) c bytes))

bytes_text-joined : (bytes : List ℕ) → bytes_text 0 bytes ≡ joined bytes
bytes_text-joined [] = refl
bytes_text-joined (b ∷ []) = append-nil (print_u b)
bytes_text-joined (b ∷ c ∷ bytes) = ap (λ l. print_u b ++ l) (later_bytes 0 c bytes)

-- While malloc succeeds, uart_read_handler never prints past its array: it answers ESP_OK and sends the whole
-- list of the bytes that the UART had, in decimal and separated by commas, with their number.
pub uart_read_handler_lem :
    (heap : Heap) (received : Option (List ℕ))
    → IsBytes (grove_uart_read received)
    → heap.buf_allocated ≡ true
    → heap.resp_allocated ≡ true
    → ((n : ℕ) → length (heap.content n) ≡ n)
    → uart_read_handler heap received
      ≡ done (esp_ok, body (byte_list_json (grove_uart_read received)))
unfolding uart_read_handler
uart_read_handler_lem heap received h buf_there resp_there sized =
    let bytes = grove_uart_read received in
    let size = length bytes * 5 + 32 in
    let head = codes "{\"bytes\":[" in
    let tail = codes "],\"count\":" ++ (print_u (length bytes) ++ codes "}") in
    let p = snprintf-Printed head (heap.content size) (omega (arith, sized size)) in
    let loop =
      print_bytes-Looped 0 bytes size head p.rest h (omega (arith, sized size, p.room))
        (omega (arith, sized size, p.room)) in
    let acc = head ++ bytes_text 0 bytes in
    let tail_short : length tail < length loop.rest = omega (
      arith,
      sized size,
      p.room,
      loop.room,
      length-bytes_text 0 bytes h,
      length-decimal 10 (length bytes),
      length-append (print_u (length bytes)) (codes "}"),
    ) in
    let sent = finished acc tail loop.rest tail_short in
    let text : acc ++ tail ≡ byte_list_json bytes =
      append_assoc head (bytes_text 0 bytes) tail
      ∙ ap (λ l. head ++ (l ++ tail)) (bytes_text-joined bytes) in
    rw (buf_there, resp_there, p.whole, loop.printed, sent, text) refl
