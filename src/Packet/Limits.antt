-- ===== src/Packet/Limits.antt =====
-- Two limits of barrier_packet.c: what the length of a CINN frame covers, and what `packet_parse`
-- takes on trust.
use esp32_deskflow.Prelude.{
  get_or-drop, ℕ, ◌+◌, ◌≤◌, ◌<◌, ◌^◌, ◌≡◌, ◌≢◌, List, ◌++◌, arith, length, get_or, refl,
}
use esp32_deskflow.Esp.{fault}
use esp32_deskflow.Io.{io_read_u32_be}
use esp32_deskflow.Io.Laws.{u32_join}
use esp32_deskflow.Packet.{PacketType, Packet, IsPacket, type_of, cinn}
use esp32_deskflow.Packet.Code.{code_to_type, type_to_code}
use esp32_deskflow.Packet.Parse.{packet_parse, parse_payload}
use esp32_deskflow.Packet.Serialize.{payload_data_len, serialize_into}
use esp32_deskflow.Packet.Wire.{be32, fields, frame}
use esp32_deskflow.Packet.Bounds.{needed}
use esp32_deskflow.Packet.Emit.{emit}

-- The announced length is that of the fields for every type but CINN, where it is 2 more.
pub announced_length :
    (p : Packet) → type_of p ≢ PacketType.cinn → payload_data_len (type_of p) ≡ length (fields p)
unfolding payload_data_len type_of fields
announced_length Packet.qinf h = refl
announced_length (cinn x y seq mask) h = absurd (h refl)
announced_length _ h = refl

-- A CINN frame of 20 bytes ends in two bytes that were in the buffer before the call.
pub cinn_stale_bytes :
    (x y seq mask : ℕ) (buf : List ℕ) (room : ℕ)
    → IsPacket (cinn x y seq mask)
    → 20 ≤ room
    → room ≤ length buf
    → ((serialize_into (cinn x y seq mask) buf room).2 ≡ 20)
      × (get_or (serialize_into (cinn x y seq mask) buf room).1 18 0 ≡ get_or buf 18 0)
      × (get_or (serialize_into (cinn x y seq mask) buf room).1 19 0 ≡ get_or buf 19 0)
unfolding frame payload_data_len
cinn_stale_bytes x y seq mask buf room h r f =
    rw (emit (cinn x y seq mask) buf room h r f)
      (refl, get_or-drop 18 buf 0 18 0 (omega arith), get_or-drop 18 buf 1 19 0 (omega arith))

-- `packet_parse` takes the length in the header on trust: handed exactly the eight header bytes,
-- it reads past them for every type with fields, if the header announces enough data.
pub header_only_fault :
    (t : PacketType) (n : ℕ)
    → 0 < needed t
    → t ≢ PacketType.cclp
    → needed t ≤ n
    → 4 + n < 2 ^ 32
    → packet_parse (be32 (4 + n) ++ type_to_code t) 8 ≡ fault
unfolding packet_parse io_read_u32_be code_to_type parse_payload needed type_to_code
header_only_fault PacketType.cclp n h c k b = absurd (c refl)
header_only_fault _ n h c k b = ground (arith, u32_join (4 + n))
