-- ===== src/Packet/Serialize.antt =====
-- `packet_serialize` of main/barrier/barrier_packet.c. A null pointer is `none`; the result is the
-- status with `buf` and `*out_len` as the call leaves them.
use esp32_deskflow.Prelude.{
  ℕ, ◌+◌, List, set, get_or, Option, some, ltb, u32, u8, u8_of_int, if◌then◌else◌,
}
use esp32_deskflow.Esp.{EspErr, esp_ok, esp_err_invalid_arg, esp_err_no_mem}
use esp32_deskflow.Io.{io_write_u32_be, io_write_u16_be, io_write_i16_be}
use esp32_deskflow.Packet.{
  PacketType, Packet, type_of, dinf, cinn, dmmv, dmrm, dmup, dmdn, dmwm, dkup, dkdn, dkrp, cclp,
  dclp, eicv,
}
use esp32_deskflow.Packet.Code.{type_to_code}
use esp32_deskflow.Packet.Parse.{barrier_code_len, barrier_header_len}

-- The first `switch (pkt->type)`.
unfoldable pub payload_data_len : PacketType → ℕ
payload_data_len PacketType.dinf = 14
payload_data_len PacketType.dmmv = 4
payload_data_len PacketType.dmrm = 4
payload_data_len PacketType.dmwm = 4
payload_data_len PacketType.dmup = 1
payload_data_len PacketType.dmdn = 1
payload_data_len PacketType.cinn = 12
payload_data_len PacketType.dkup = 6
payload_data_len PacketType.dkdn = 6
payload_data_len PacketType.dkrp = 8
payload_data_len PacketType.cclp = 5
payload_data_len PacketType.dclp = 5
payload_data_len PacketType.eicv = 4
payload_data_len _ = 0

-- `memcpy(&buf[4], code, BARRIER_CODE_LEN)`.
unfoldable pub copy_code : List ℕ → List ℕ → List ℕ
copy_code buf code =
    set (set (set (set buf 4 (get_or code 0 0)) 5 (get_or code 1 0)) 6 (get_or code 2 0)) 7
      (get_or code 3 0)

-- The second `switch (pkt->type)`, with `data` at `&buf[8]`.
unfoldable pub write_payload : List ℕ → Packet → List ℕ
unfolding io_write_u32_be io_write_u16_be io_write_i16_be
write_payload buf (dinf x y w h dummy mx my) =
    let buf = io_write_u16_be buf 8 x in
    let buf = io_write_u16_be buf 10 y in
    let buf = io_write_u16_be buf 12 w in
    let buf = io_write_u16_be buf 14 h in
    let buf = io_write_u16_be buf 16 dummy in
    let buf = io_write_u16_be buf 18 mx in io_write_u16_be buf 20 my
write_payload buf (dmmv x y) = io_write_u16_be (io_write_u16_be buf 8 x) 10 y
write_payload buf (dmrm dx dy) = io_write_i16_be (io_write_i16_be buf 8 dx) 10 dy
write_payload buf (dmup id) = set buf 8 (u8_of_int id)
write_payload buf (dmdn id) = set buf 8 (u8_of_int id)
write_payload buf (dmwm dx dy) = io_write_i16_be (io_write_i16_be buf 8 dx) 10 dy
write_payload buf (cinn x y seq mask) =
    let buf = io_write_u16_be buf 8 x in
    let buf = io_write_u16_be buf 10 y in
    let buf = io_write_u32_be buf 12 seq in io_write_u16_be buf 16 mask
write_payload buf (dkup id mask button) =
    io_write_u16_be (io_write_u16_be (io_write_u16_be buf 8 id) 10 mask) 12 button
write_payload buf (dkdn id mask button) =
    io_write_u16_be (io_write_u16_be (io_write_u16_be buf 8 id) 10 mask) 12 button
write_payload buf (dkrp id mask count button) =
    let buf = io_write_u16_be buf 8 id in
    let buf = io_write_u16_be buf 10 mask in
    let buf = io_write_u16_be buf 12 count in io_write_u16_be buf 14 button
write_payload buf (cclp id seq) = io_write_u32_be (set buf 8 (u8 id)) 9 seq
write_payload buf (dclp id seq) = io_write_u32_be (set buf 8 (u8 id)) 9 seq
write_payload buf (eicv major minor) = io_write_u16_be (io_write_u16_be buf 8 major) 10 minor
write_payload buf _ = buf

-- The body of the function, after the null checks.
unfoldable pub serialize_into : Packet → List ℕ → ℕ → EspErr × List ℕ × ℕ
unfolding payload_data_len type_of type_to_code copy_code write_payload io_write_u32_be
serialize_into pkt buf out_len =
    let data_len = payload_data_len (type_of pkt) in
    if ltb out_len (barrier_header_len + data_len)
    then (esp_err_no_mem, buf, out_len)
    else (let total_payload = u32 (barrier_code_len + data_len) in
        let headed = copy_code (io_write_u32_be buf 0 total_payload) (type_to_code (type_of pkt)) in
        (esp_ok, write_payload headed pkt, barrier_header_len + data_len))

unfoldable pub packet_serialize :
    Option Packet → Option (List ℕ) → Option ℕ → EspErr × Option (List ℕ) × Option ℕ
packet_serialize (some pkt) (some buf) (some out_len) =
    let (err, buf', out_len') = serialize_into pkt buf out_len in (err, some buf', some out_len')
packet_serialize pkt buf out_len = (esp_err_invalid_arg, buf, out_len)
