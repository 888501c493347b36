-- ===== src/Packet/Parse.antt =====
-- `packet_parse` of main/barrier/barrier_packet.c.
use esp32_deskflow.Prelude.{ℕ, ◌+◌, ◌-◌, List, [], ◌∷◌, ltb, leb, if◌then◌else◌}
use esp32_deskflow.Esp.{Outcome, done, error, load, ◌>>=◌, esp_err_invalid_size}
use esp32_deskflow.Io.{io_read_u32_be, io_read_u16_be, io_read_i16_be, io_read_i8}
use esp32_deskflow.Packet.{
  PacketType, Packet, qinf, dinf, ciak, calv, cnop, cinn, cout, dmmv, dmrm, dmup, dmdn, dmwm, dkup,
  dkdn, dkrp, cclp, dclp, cbye, eunk, ebsy, ebad, eicv, crop, dsop, unknown,
}
use esp32_deskflow.Packet.Code.{code_to_type}

abbrev pub barrier_code_len : ℕ
barrier_code_len = 4

abbrev pub barrier_header_len : ℕ
barrier_header_len = 4 + barrier_code_len

-- `if (data_len < n) return ESP_ERR_INVALID_SIZE;` before the reads of a case.
abbrev pub sized {ℓ} : {A : Type ℓ} → ℕ → ℕ → Outcome A → Outcome A
sized data_len n rest = if ltb data_len n then error esp_err_invalid_size else rest

-- The `switch (type)`: `data` is `&buf[8]`, so `buf` and `data + i` stand for `&data[i]`.
unfoldable pub parse_payload : List ℕ → ℕ → PacketType → Outcome Packet
unfolding io_read_u32_be io_read_u16_be io_read_i16_be io_read_i8
parse_payload buf data_len PacketType.qinf = done qinf
parse_payload buf data_len PacketType.ciak = done ciak
parse_payload buf data_len PacketType.calv = done calv
parse_payload buf data_len PacketType.cnop = done cnop
parse_payload buf data_len PacketType.cout = done cout
parse_payload buf data_len PacketType.cbye = done cbye
parse_payload buf data_len PacketType.eunk = done eunk
parse_payload buf data_len PacketType.ebsy = done ebsy
parse_payload buf data_len PacketType.ebad = done ebad
parse_payload buf data_len PacketType.crop = done crop
parse_payload buf data_len PacketType.dinf = sized data_len 14 do
  x ← io_read_u16_be buf 8
  y ← io_read_u16_be buf 10
  w ← io_read_u16_be buf 12
  h ← io_read_u16_be buf 14
  dummy ← io_read_u16_be buf 16
  mx ← io_read_u16_be buf 18
  my ← io_read_u16_be buf 20
  done (dinf x y w h dummy mx my)
parse_payload buf data_len PacketType.dmmv =
    sized data_len 4 do x ← io_read_u16_be buf 8; y ← io_read_u16_be buf 10; done (dmmv x y)
parse_payload buf data_len PacketType.dmrm =
    sized data_len 4 do dx ← io_read_i16_be buf 8; dy ← io_read_i16_be buf 10; done (dmrm dx dy)
parse_payload buf data_len PacketType.dmup =
    sized data_len 1 do id ← io_read_i8 buf 8; done (dmup id)
parse_payload buf data_len PacketType.dmdn =
    sized data_len 1 do id ← io_read_i8 buf 8; done (dmdn id)
parse_payload buf data_len PacketType.dmwm =
    sized data_len 4 do dx ← io_read_i16_be buf 8; dy ← io_read_i16_be buf 10; done (dmwm dx dy)
parse_payload buf data_len PacketType.cinn = sized data_len 10 do
  x ← io_read_u16_be buf 8
  y ← io_read_u16_be buf 10
  seq ← io_read_u32_be buf 12
  mask ← io_read_u16_be buf 16
  done (cinn x y seq mask)
parse_payload buf data_len PacketType.dkup = sized data_len 6 do
  id ← io_read_u16_be buf 8
  mask ← io_read_u16_be buf 10
  button ← io_read_u16_be buf 12
  done (dkup id mask button)
parse_payload buf data_len PacketType.dkdn = sized data_len 6 do
  id ← io_read_u16_be buf 8
  mask ← io_read_u16_be buf 10
  button ← io_read_u16_be buf 12
  done (dkdn id mask button)
parse_payload buf data_len PacketType.dkrp = sized data_len 8 do
  id ← io_read_u16_be buf 8
  mask ← io_read_u16_be buf 10
  count ← io_read_u16_be buf 12
  button ← io_read_u16_be buf 14
  done (dkrp id mask count button)
-- The size is checked and no field is read: `*out` stays zeroed.
parse_payload buf data_len PacketType.cclp = sized data_len 5 (done (cclp 0 0))
parse_payload buf data_len PacketType.dclp =
    sized data_len 5 do id ← load buf 8; seq ← io_read_u32_be buf 9; done (dclp id seq)
parse_payload buf data_len PacketType.eicv =
    sized data_len 4
      do major ← io_read_u16_be buf 8; minor ← io_read_u16_be buf 10; done (eicv major minor)
parse_payload buf data_len PacketType.dsop = done dsop
parse_payload buf data_len PacketType.unknown = done unknown

-- `buf` is the memory from `buf` on; `len` is the caller's word for how much of it is meant.
unfoldable pub packet_parse : List ℕ → ℕ → Outcome Packet
packet_parse buf len = if ltb len barrier_header_len then error esp_err_invalid_size else do
  payload_len ← io_read_u32_be buf 0
  c0 ← load buf 4
  c1 ← load buf 5
  c2 ← load buf 6
  c3 ← load buf 7
  let type = code_to_type (c0 ∷ c1 ∷ c2 ∷ c3 ∷ [])
  let data_len = if leb barrier_code_len payload_len then payload_len - barrier_code_len else 0
  parse_payload buf data_len type
