-- ===== src/Client/Framing.antt =====
-- Frames are read whole: read_packet of main/barrier/barrier_client.c.
use esp32_deskflow.Prelude.{
  ℕ, suc, ◌+◌, ◌-◌, ◌%◌, ◌^◌, ◌≤◌, ◌<◌, ◌≡◌, refl, sym, ap, ◌∙◌, arith, Bool, true, false, List, [],
  ◌∷◌, ◌++◌, length, take, drop, some, ltb, leb, min, append_assoc, append-nil, length-drop,
  length-append, length-take, take-append, drop-append, take-drop, subst,
}
use esp32_deskflow.Esp.{esp_ok, esp_err_timeout, done, error}
use esp32_deskflow.Io.Laws.{u32_join}
use esp32_deskflow.Packet.{Packet, PacketType, IsPacket, type_of}
use esp32_deskflow.Packet.Code.{type_to_code}
use esp32_deskflow.Packet.Wire.{be32, fields, frame}
use esp32_deskflow.Packet.Emit.{length-fields}
use esp32_deskflow.Packet.RoundTrip.{received, parse-frame}
use esp32_deskflow.Io.{io_read_u32_be}
use esp32_deskflow.Packet.Parse.{packet_parse}
use esp32_deskflow.Client.Read.{
  Answer, ready, timed_out, failed, conn_at, read_loop, read_payload, read_packet,
}

-- The answers deliver data: chunks of any sizes, and time-outs before the deadline without a
-- notification.
unfoldable pub IsFlowing : ℕ → ℕ → List Answer → Type 0
IsFlowing start_ms timeout_ms [] = Unit {0}
IsFlowing start_ms timeout_ms (ready n ∷ answers) = IsFlowing start_ms timeout_ms answers
IsFlowing start_ms timeout_ms (timed_out now notified ∷ answers) =
    (leb timeout_ms ((now + 2 ^ 64 - start_ms) % 2 ^ 64) ≡ false)
    × (notified ≡ false)
    × IsFlowing start_ms timeout_ms answers
IsFlowing start_ms timeout_ms (failed ∷ answers) = ⊥

-- The chunks among the answers.
unfoldable pub chunks : List Answer → ℕ
chunks [] = 0
chunks (ready n ∷ answers) = suc (chunks answers)
chunks (_ ∷ answers) = chunks answers

-- However the bytes are cut into chunks, the loop reads exactly the wanted ones.
pub read_loop_whole :
    (start_ms timeout_ms : ℕ) (answers : List Answer) (got payload rest : List ℕ)
    → IsFlowing start_ms timeout_ms answers
    → length payload ≤ chunks answers
    → (answers' : List Answer) × (read_loop start_ms timeout_ms answers
          (length payload)
          got
          (payload ++ rest)
        ≡ some (esp_ok, got ++ payload, conn_at rest answers'))
      × IsFlowing start_ms timeout_ms answers'
      × (chunks answers ≤ chunks answers' + length payload)
unfolding IsFlowing chunks read_loop
read_loop_whole start_ms timeout_ms answers got [] rest flow enough = (
  answers,
  ap (λ (g : List ℕ). some (esp_ok, g, conn_at rest answers)) (sym (append-nil got)),
  flow,
  omega arith,
)
read_loop_whole start_ms timeout_ms [] got (b ∷ payload) rest flow enough = absurd (omega arith)
read_loop_whole start_ms timeout_ms (ready n ∷ answers) got (b ∷ payload) rest flow enough =
    let xs = b ∷ payload in
    let size = min (suc n) (suc (length payload)) in
    let fits : size ≤ length xs = omega arith in
    let cut = length-take size xs fits in
    let left_over = length-drop size xs in
    let (answers', runs, flow', left) =
      read_loop_whole start_ms timeout_ms answers (got ++ take size xs) (drop size xs) rest flow
        (omega (arith, left_over)) in
    let e1 : take size (xs ++ rest) ≡ take size xs = take-append size xs rest fits in
    let e2 : drop size (xs ++ rest) ≡ drop size xs ++ rest = drop-append size xs rest fits in
    let e3 : suc (length payload) - length (take size xs) ≡ length (drop size xs) =
      omega (arith, cut, left_over) in
    let e4 : (got ++ take size xs) ++ drop size xs ≡ got ++ xs =
      append_assoc got (take size xs) (drop size xs) ∙ ap (λ r. got ++ r) (take-drop size xs) in
    (
      answers',
      rw (e1, read_loop)
          (rw e2 (rw e3 (runs ∙ ap (λ (g : List ℕ). some (esp_ok, g, conn_at rest answers')) e4))),
      flow',
      omega (arith, left, left_over),
    )
read_loop_whole start_ms timeout_ms (timed_out now notified ∷ answers) got (b ∷ payload) rest
      (early, quiet, flow) enough =
    let (answers', runs, flow', left) =
      read_loop_whole start_ms timeout_ms answers got (b ∷ payload) rest flow enough in
    (answers', rw (early, read_loop) (rw (quiet, read_loop) runs), flow', left)
read_loop_whole start_ms timeout_ms (failed ∷ answers) got (b ∷ payload) rest flow enough =
    absurd flow

-- The part of read_packet behind the length prefix, for a length that is announced truly.
payload_whole :
    (start_ms timeout_ms : ℕ) (header payload rest buf : List ℕ) (answers : List Answer)
    → io_read_u32_be header 0 ≡ done (length payload)
    → 4 ≤ length payload
    → length payload ≤ 1020
    → IsFlowing start_ms timeout_ms answers
    → length payload ≤ chunks answers
    → (answers' : List Answer) × (read_payload start_ms timeout_ms header buf
          (conn_at (payload ++ rest) answers)
        ≡ some (
          packet_parse (header ++ payload ++ drop (4 + length payload) buf) (4 + length payload),
          header ++ payload ++ drop (4 + length payload) buf,
          conn_at rest answers',
        ))
unfolding read_payload
payload_whole start_ms timeout_ms header payload rest buf answers announced low high flow enough =
    let (answers', runs, _, _) =
      read_loop_whole start_ms timeout_ms answers [] payload rest flow enough in
    let fits : ltb 1020 (length payload) ≡ false = ground arith in
    let coded : ltb (length payload) 4 ≡ false = ground arith in
    (answers', rw (announced, read_payload) (rw fits (rw coded (rw runs refl))))

-- A complete frame with a true length prefix of 4 to 1020 bytes, cut into chunks in any way, with
-- time-outs before the deadline anywhere in between: read_packet returns what packet_parse makes of
-- exactly this frame, and leaves what follows it on the connection.
pub read_packet_whole :
    (start_ms timeout_ms : ℕ) (header payload rest buf : List ℕ) (answers : List Answer)
    → length header ≡ 4
    → io_read_u32_be header 0 ≡ done (length payload)
    → 4 ≤ length payload
    → length payload ≤ 1020
    → IsFlowing start_ms timeout_ms answers
    → 4 + length payload ≤ chunks answers
    → (answers' : List Answer) × (read_packet start_ms timeout_ms buf
          (conn_at (header ++ (payload ++ rest)) answers)
        ≡ some (
          packet_parse (header ++ payload ++ drop (4 + length payload) buf) (4 + length payload),
          header ++ payload ++ drop (4 + length payload) buf,
          conn_at rest answers',
        ))
unfolding read_packet
read_packet_whole start_ms timeout_ms header payload rest buf answers four announced low high flow
      enough =
    let (middle, first, flow', left) =
      read_loop_whole start_ms timeout_ms answers [] header (payload ++ rest) flow (omega arith) in
    let (answers', then_) =
      payload_whole start_ms timeout_ms header payload rest buf middle announced low high flow'
        (omega arith) in
    let first' =
      subst
        (λ n.
          read_loop start_ms timeout_ms answers n [] (header ++ (payload ++ rest))
          ≡ some (esp_ok, header, conn_at (payload ++ rest) middle))
        four first in
    (answers', rw (first', read_packet) then_)

-- A time-out in the middle of a length prefix loses the bytes read so far: read_packet returns
-- ESP_ERR_TIMEOUT, and the connection stands behind the first byte of the frame.
pub timeout_loses_byte :
    (start_ms timeout_ms now b : ℕ) (notified : Bool) (rest buf : List ℕ) (answers : List Answer)
    → leb timeout_ms ((now + 2 ^ 64 - start_ms) % 2 ^ 64) ≡ true
    → read_packet start_ms timeout_ms buf
        (conn_at (b ∷ rest) (ready 0 ∷ timed_out now notified ∷ answers))
      ≡ some (error esp_err_timeout, buf, conn_at rest answers)
unfolding read_packet read_loop
timeout_loses_byte start_ms timeout_ms now b notified rest buf answers late =
    rw (late, read_packet, read_loop) refl

length-type_to_code : (t : PacketType) → length (type_to_code t) ≡ 4
unfolding type_to_code
length-type_to_code PacketType.qinf = refl
length-type_to_code _ = refl

be32_read : (n : ℕ) → n < 2 ^ 32 → io_read_u32_be (be32 n) 0 ≡ done n
unfolding io_read_u32_be
be32_read n h = ap (λ (k : ℕ). done k) (ground (arith, u32_join n))

-- The frame of a packet, with the length of its fields announced, cut into chunks in any way and
-- with time-outs before the deadline in between: read_packet returns the packet (of a CCLP the
-- type alone) and leaves what follows on the connection.
pub read_packet_receives :
    (start_ms timeout_ms : ℕ) (p : Packet) (rest buf : List ℕ) (answers : List Answer)
    → IsPacket p
    → IsFlowing start_ms timeout_ms answers
    → 8 + length (fields p) ≤ chunks answers
    → (answers' : List Answer) × (buf' : List ℕ) × (read_packet start_ms timeout_ms buf
          (conn_at (frame (length (fields p)) p ++ rest) answers)
        ≡ some (done (received p), buf', conn_at rest answers'))
unfolding frame
read_packet_receives start_ms timeout_ms p rest buf answers h flow enough =
    let n = length (fields p) in
    let header = be32 (4 + n) in
    let payload = type_to_code (type_of p) ++ fields p in
    let small : n ≤ 14 = omega (arith, length-fields p) in
    let size : length payload ≡ 4 + n = omega (
      arith,
      length-append (type_to_code (type_of p)) (fields p),
      length-type_to_code (type_of p),
    ) in
    let announced : io_read_u32_be header 0 ≡ done (length payload) =
      be32_read (4 + n) (omega arith) ∙ ap (λ (k : ℕ). done k) (sym size) in
    let (answers', runs) =
      read_packet_whole start_ms timeout_ms header payload rest buf answers refl announced
        (omega arith) (omega arith) flow (omega arith) in
    let len = 4 + length payload in
    let buf' = header ++ payload ++ drop len buf in
    let parses = parse-frame p n len (drop len buf) h (omega arith) (omega arith) (omega arith) in
    (answers', buf', runs ∙ ap (λ o. some (o, buf', conn_at rest answers')) parses)
