-- ===== src/Packet/Emit.antt =====
-- `packet_serialize` writes the wire format into the buffer and nothing after it.
use esp32_deskflow.Prelude.{
  refl, ◌∙◌, some, if◌then◌else◌, ltb, Bool-cases, inl, inr, ltb→le, true, ℕ, ◌+◌, ◌≤◌, ◌≡◌, List,
  ◌++◌, arith, length, drop, spread, spread-eq, subst, u16_of_int, u16_of_int-lt,
}
use esp32_deskflow.Esp.{esp_ok, esp_err_no_mem}
use esp32_deskflow.Io.Laws.{stored16, stored32}
use esp32_deskflow.Packet.{
  Packet, IsPacket, type_of, qinf, dinf, ciak, calv, cnop, cinn, cout, dmmv, dmrm, dmup, dmdn, dmwm,
  dkup, dkdn, dkrp, cclp, dclp, cbye, eunk, ebsy, ebad, eicv, crop, dsop, unknown,
}
use esp32_deskflow.Packet.Serialize.{payload_data_len, serialize_into, packet_serialize}
use esp32_deskflow.Packet.Code.{type_to_code}
use esp32_deskflow.Packet.Wire.{fields, frame, wire, wire_code, wire_len}

-- The buffer after a successful call, and the status and length that come with it.
abbrev pub Emits : Packet → List ℕ → ℕ → Type 0
Emits p buf room =
    let n = payload_data_len (type_of p) in
    serialize_into p buf room ≡ (esp_ok, frame n p ++ drop (8 + length (fields p)) buf, 8 + n)

-- It is enough to look at buffers whose first cells are written out.
on_spread :
    (n : ℕ) (p : Packet) (buf : List ℕ) (room : ℕ)
    → n ≤ length buf
    → Emits p (spread n 0 buf) room
    → Emits p buf room
on_spread n p buf room h e = subst (λ b. Emits p b room) (spread-eq n 0 buf h) e

pub emit :
    (p : Packet) (buf : List ℕ) (room : ℕ)
    → IsPacket p
    → 8 + payload_data_len (type_of p) ≤ room
    → room ≤ length buf
    → Emits p buf room
unfolding serialize_into frame
emit (dinf x y w e dummy mx my) buf room h r f =
    on_spread 22 (dinf x y w e dummy mx my) buf room (omega arith) (
      ground (
        arith,
        stored16 x,
        stored16 y,
        stored16 w,
        stored16 e,
        stored16 dummy,
        stored16 mx,
        stored16 my,
      ))
emit (dmmv x y) buf room h r f =
    on_spread 12 (dmmv x y) buf room (omega arith) (ground (arith, stored16 x, stored16 y))
emit (dmrm dx dy) buf room h r f = on_spread 12 (dmrm dx dy) buf room (omega arith) (
    ground (
      arith,
      stored16 (u16_of_int dx) (u16_of_int-lt dx),
      stored16 (u16_of_int dy) (u16_of_int-lt dy),
    ))
emit (dmwm dx dy) buf room h r f = on_spread 12 (dmwm dx dy) buf room (omega arith) (
    ground (
      arith,
      stored16 (u16_of_int dx) (u16_of_int-lt dx),
      stored16 (u16_of_int dy) (u16_of_int-lt dy),
    ))
emit (dmup id) buf room h r f = on_spread 9 (dmup id) buf room (omega arith) (ground arith)
emit (dmdn id) buf room h r f = on_spread 9 (dmdn id) buf room (omega arith) (ground arith)
emit (cinn x y seq mask) buf room h r f =
    on_spread 20 (cinn x y seq mask) buf room (omega arith)
      (ground (arith, stored16 x, stored16 y, stored16 mask, stored32 seq))
emit (dkup id mask button) buf room h r f =
    on_spread 14 (dkup id mask button) buf room (omega arith)
      (ground (arith, stored16 id, stored16 mask, stored16 button))
emit (dkdn id mask button) buf room h r f =
    on_spread 14 (dkdn id mask button) buf room (omega arith)
      (ground (arith, stored16 id, stored16 mask, stored16 button))
emit (dkrp id mask count button) buf room h r f =
    on_spread 16 (dkrp id mask count button) buf room (omega arith)
      (ground (arith, stored16 id, stored16 mask, stored16 count, stored16 button))
emit (cclp id seq) buf room h r f =
    on_spread 13 (cclp id seq) buf room (omega arith) (ground (arith, stored32 seq))
emit (dclp id seq) buf room h r f =
    on_spread 13 (dclp id seq) buf room (omega arith) (ground (arith, stored32 seq))
emit (eicv major minor) buf room h r f =
    on_spread 12 (eicv major minor) buf room (omega arith)
      (ground (arith, stored16 major, stored16 minor))
emit qinf buf room h r f = on_spread 8 qinf buf room (omega arith) (ground arith)
emit ciak buf room h r f = on_spread 8 ciak buf room (omega arith) (ground arith)
emit calv buf room h r f = on_spread 8 calv buf room (omega arith) (ground arith)
emit cnop buf room h r f = on_spread 8 cnop buf room (omega arith) (ground arith)
emit cout buf room h r f = on_spread 8 cout buf room (omega arith) (ground arith)
emit cbye buf room h r f = on_spread 8 cbye buf room (omega arith) (ground arith)
emit eunk buf room h r f = on_spread 8 eunk buf room (omega arith) (ground arith)
emit ebsy buf room h r f = on_spread 8 ebsy buf room (omega arith) (ground arith)
emit ebad buf room h r f = on_spread 8 ebad buf room (omega arith) (ground arith)
emit crop buf room h r f = on_spread 8 crop buf room (omega arith) (ground arith)
emit dsop buf room h r f = on_spread 8 dsop buf room (omega arith) (ground arith)
emit unknown buf room h r f = on_spread 8 unknown buf room (omega arith) (ground arith)

-- The length that the code announces covers the fields; it is at most 14.
pub length-fields :
    (p : Packet)
    → (length (fields p) ≤ payload_data_len (type_of p)) × (payload_data_len (type_of p) ≤ 14)
unfolding fields payload_data_len type_of
length-fields qinf = omega arith
length-fields _ = omega arith

no_room :
    (p : Packet) (buf : List ℕ) (room : ℕ)
    → ltb room (8 + payload_data_len (type_of p)) ≡ true
    → serialize_into p buf room ≡ (esp_err_no_mem, buf, room)
unfolding serialize_into
no_room p buf room h = rw h

-- The tables of the code are those of the wire format.
type_to_code-eq-wire_code : (p : Packet) → type_to_code (type_of p) ≡ wire_code p
unfolding type_to_code type_of wire_code
type_to_code-eq-wire_code qinf = refl
type_to_code-eq-wire_code _ = refl

payload_data_len-eq-wire_len : (p : Packet) → payload_data_len (type_of p) ≡ wire_len p
unfolding payload_data_len type_of wire_len fields
payload_data_len-eq-wire_len qinf = refl
payload_data_len-eq-wire_len _ = refl

frame-eq-wire : (p : Packet) → frame (payload_data_len (type_of p)) p ≡ wire p
unfolding frame wire
frame-eq-wire p = rw (type_to_code-eq-wire_code p, payload_data_len-eq-wire_len p) refl

packet_serialize_branches :
    (p : Packet) (buf : List ℕ) (room : ℕ)
    → IsPacket p
    → room ≤ length buf
    → packet_serialize (some p) (some buf) (some room) ≡ (
        if ltb room (8 + payload_data_len (type_of p))
        then (esp_err_no_mem, some buf, some room)
        else (
          esp_ok,
          some (frame (payload_data_len (type_of p)) p ++ drop (8 + length (fields p)) buf),
          some (8 + payload_data_len (type_of p)),
        ))
unfolding packet_serialize
packet_serialize_branches p buf room h f =
    elim (Bool-cases (ltb room (8 + payload_data_len (type_of p)))) [
      | inl full ↦ rw (full, no_room p buf room full)
      | inr fits ↦ rw (fits, emit p buf room h (ltb→le _ _ fits) f)
    ]

-- For a well-formed packet and a buffer of at least `*out_len` bytes: with room for the header and the
-- data, `packet_serialize` replaces the first bytes of the buffer by the length, the four letters of
-- the type and the fields, keeps the bytes behind them, and reports 8 more than the length of the
-- data; without room it reports ESP_ERR_NO_MEM and changes nothing. The data are as long as the
-- fields, but for CINN two more are announced and reported, which keep what the buffer held.
pub packet_serialize-eq-wire :
    (p : Packet) (buf : List ℕ) (room : ℕ)
    → IsPacket p
    → room ≤ length buf
    → packet_serialize (some p) (some buf) (some room) ≡ (
        if ltb room (8 + wire_len p)
        then (esp_err_no_mem, some buf, some room)
        else (esp_ok, some (wire p ++ drop (8 + length (fields p)) buf), some (8 + wire_len p)))
packet_serialize-eq-wire p buf room h f =
    packet_serialize_branches p buf room h f
    ∙ rw (frame-eq-wire p, payload_data_len-eq-wire_len p) refl
