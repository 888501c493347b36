-- ===== src/Packet/RoundTrip.antt =====
-- Parsing a frame gives the packet back.
use esp32_deskflow.Prelude.{
  some, ap, drop, ℕ, ◌+◌, ◌≤◌, ◌<◌, ◌^◌, ◌≡◌, List, ◌++◌, arith, length, u16_of_int,
  int16_of_u16-u16_of_int, int8_of_u8-u8_of_int,
}
use esp32_deskflow.Esp.{done, esp_ok}
use esp32_deskflow.Io.Laws.{u16_join, u32_join}
use esp32_deskflow.Packet.{
  Packet, IsPacket, type_of, qinf, dinf, ciak, calv, cnop, cinn, cout, dmmv, dmrm, dmup, dmdn, dmwm,
  dkup, dkdn, dkrp, cclp, dclp, cbye, eunk, ebsy, ebad, eicv, crop, dsop, unknown,
}
use esp32_deskflow.Packet.Emit.{emit, length-fields}
use esp32_deskflow.Packet.Serialize.{payload_data_len, packet_serialize}
use esp32_deskflow.Packet.Parse.{packet_parse, parse_payload}
use esp32_deskflow.Packet.Code.{code_to_type}
use esp32_deskflow.Io.{io_read_u32_be}
use esp32_deskflow.Packet.Wire.{fields, frame}

-- What a receiver makes of a packet: of a CCLP it keeps the type alone.
unfoldable pub received : Packet → Packet
received (cclp id seq) = cclp 0 0
received p = p

abbrev Parses : Packet → ℕ → List ℕ → ℕ → Type 0
Parses p n rest len = packet_parse (frame n p ++ rest) len ≡ done (received p)

pub parse-frame :
    (p : Packet) (n len : ℕ) (rest : List ℕ)
    → IsPacket p
    → length (fields p) ≤ n
    → 4 + n < 2 ^ 32
    → 8 ≤ len
    → Parses p n rest len
unfolding packet_parse io_read_u32_be code_to_type parse_payload frame received
parse-frame (dinf x y w e dummy mx my) n len rest h k b l = ground (
  arith,
  u32_join (4 + n),
  u16_join x,
  u16_join y,
  u16_join w,
  u16_join e,
  u16_join dummy,
  u16_join mx,
  u16_join my,
)
parse-frame (dmmv x y) n len rest h k b l = ground (arith, u32_join (4 + n), u16_join x, u16_join y)
parse-frame (dmrm dx dy) n len rest h k b l = ground (
  arith,
  u32_join (4 + n),
  u16_join (u16_of_int dx),
  int16_of_u16-u16_of_int dx,
  u16_join (u16_of_int dy),
  int16_of_u16-u16_of_int dy,
)
parse-frame (dmwm dx dy) n len rest h k b l = ground (
  arith,
  u32_join (4 + n),
  u16_join (u16_of_int dx),
  int16_of_u16-u16_of_int dx,
  u16_join (u16_of_int dy),
  int16_of_u16-u16_of_int dy,
)
parse-frame (dmup id) n len rest h k b l = ground (arith, u32_join (4 + n), int8_of_u8-u8_of_int id)
parse-frame (dmdn id) n len rest h k b l = ground (arith, u32_join (4 + n), int8_of_u8-u8_of_int id)
parse-frame (cinn x y seq mask) n len rest h k b l =
    ground (arith, u32_join (4 + n), u16_join x, u16_join y, u16_join mask, u32_join seq)
parse-frame (dkup id mask button) n len rest h k b l =
    ground (arith, u32_join (4 + n), u16_join id, u16_join mask, u16_join button)
parse-frame (dkdn id mask button) n len rest h k b l =
    ground (arith, u32_join (4 + n), u16_join id, u16_join mask, u16_join button)
parse-frame (dkrp id mask count button) n len rest h k b l =
    ground (arith, u32_join (4 + n), u16_join id, u16_join mask, u16_join count, u16_join button)
parse-frame (cclp id seq) n len rest h k b l = ground (arith, u32_join (4 + n))
parse-frame (dclp id seq) n len rest h k b l = ground (arith, u32_join (4 + n), u32_join seq)
parse-frame (eicv major minor) n len rest h k b l =
    ground (arith, u32_join (4 + n), u16_join major, u16_join minor)
parse-frame qinf n len rest h k b l = ground (arith, u32_join (4 + n))
parse-frame ciak n len rest h k b l = ground (arith, u32_join (4 + n))
parse-frame calv n len rest h k b l = ground (arith, u32_join (4 + n))
parse-frame cnop n len rest h k b l = ground (arith, u32_join (4 + n))
parse-frame cout n len rest h k b l = ground (arith, u32_join (4 + n))
parse-frame cbye n len rest h k b l = ground (arith, u32_join (4 + n))
parse-frame eunk n len rest h k b l = ground (arith, u32_join (4 + n))
parse-frame ebsy n len rest h k b l = ground (arith, u32_join (4 + n))
parse-frame ebad n len rest h k b l = ground (arith, u32_join (4 + n))
parse-frame crop n len rest h k b l = ground (arith, u32_join (4 + n))
parse-frame dsop n len rest h k b l = ground (arith, u32_join (4 + n))
parse-frame unknown n len rest h k b l = ground (arith, u32_join (4 + n))

-- A packet that is serialized into a buffer with room for it, and parsed from that buffer with the
-- length that was returned, comes back; of a CCLP only the type does, its two fields read as 0.
pub parse-serialize :
    (p : Packet) (buf : List ℕ) (room : ℕ)
    → IsPacket p
    → 8 + payload_data_len (type_of p) ≤ room
    → room ≤ length buf
    → (out : List ℕ) × (n : ℕ) × (packet_serialize (some p) (some buf) (some room)
        ≡ (esp_ok, some out, some n))
      × (packet_parse out n ≡ done (received p))
unfolding packet_serialize
parse-serialize p buf room h r f =
    let n = payload_data_len (type_of p) in
    let out = frame n p ++ drop (8 + length (fields p)) buf in
    (
      out,
      8 + n,
      ap (λ s. (s.0, some s.1, some s.2)) (emit p buf room h r f),
      parse-frame p n (8 + n) (drop (8 + length (fields p)) buf) h (length-fields p).0
          (omega (arith, (length-fields p).1)) (omega arith),
    )
