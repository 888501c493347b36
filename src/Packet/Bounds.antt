-- ===== src/Packet/Bounds.antt =====
-- What `packet_parse` returns on any buffer: which reads are in range, when the size check fires.
use esp32_deskflow.Prelude.{
  leb, if◌then◌else◌, take, le→ltb, ℕ, ◌+◌, ◌-◌, ◌≤◌, ◌<◌, ◌^◌, ◌≡◌, ◌⊎◌, inl, inr, List, arith,
  length, IsBytes, spread, spread-eq, subst, int8_of_u8, IsInt16-int16_of_u16, IsInt8, bit_or,
  ◌<<<◌, drop,
}
use esp32_deskflow.Esp.{Outcome, done, error, fault, esp_err_invalid_size}
use native.Mathlib.Decide.{dec_lt}
use esp32_deskflow.Io.{io_read_u32_be}
use esp32_deskflow.Io.Laws.{u16_sum, u32_sum}
use esp32_deskflow.Packet.{PacketType, Packet, IsPacket, type_of}
use esp32_deskflow.Packet.Code.{code_to_type}
use esp32_deskflow.Packet.Parse.{packet_parse, parse_payload, barrier_code_len}

-- The bytes of data that a packet of the type must have.
unfoldable pub needed : PacketType → ℕ
needed PacketType.dinf = 14
needed PacketType.dmmv = 4
needed PacketType.dmrm = 4
needed PacketType.dmup = 1
needed PacketType.dmdn = 1
needed PacketType.dmwm = 4
needed PacketType.cinn = 10
needed PacketType.dkup = 6
needed PacketType.dkdn = 6
needed PacketType.dkrp = 8
needed PacketType.cclp = 5
needed PacketType.dclp = 5
needed PacketType.eicv = 4
needed _ = 0

-- A packet of that type, each of whose fields is in the range of its C type.
abbrev pub IsParsed : PacketType → Outcome Packet → Type 0
IsParsed t (done p) = (type_of p ≡ t) × IsPacket p
IsParsed t (error e) = ⊥
IsParsed t fault = ⊥

pub parse_payload_short :
    (buf : List ℕ) (d : ℕ) (t : PacketType)
    → d < needed t
    → parse_payload buf d t ≡ error esp_err_invalid_size
unfolding parse_payload needed
parse_payload_short buf d PacketType.dinf h = ground arith
parse_payload_short buf d _ h = ground arith

u16_lt : (a b : ℕ) → a < 256 → b < 256 → bit_or (a <<< 8) b < 2 ^ 16
u16_lt a b ha hb = omega (arith, u16_sum a b hb)

u32_lt :
    (a b c d : ℕ)
    → a < 256
    → b < 256
    → c < 256
    → d < 256
    → bit_or (bit_or (bit_or (a <<< 24) (b <<< 16)) (c <<< 8)) d < 2 ^ 32
u32_lt a b c d ha hb hc hd = omega (arith, u32_sum a b c d hb hc hd)

IsInt8-int8_of_u8 : (v : ℕ) → v < 2 ^ 8 → IsInt8 (int8_of_u8 v)
IsInt8-int8_of_u8 v h = ground arith

-- The statement about one type, for a buffer whose first cells are written out.
abbrev Long : PacketType → ℕ → List ℕ → Type 0
Long t d b = IsBytes b → IsParsed t (parse_payload b d t)

on_cells :
    (n : ℕ) (t : PacketType) (d : ℕ) (buf : List ℕ)
    → n ≤ length buf
    → Long t d (spread n 0 buf)
    → Long t d buf
on_cells n t d buf h e = subst (Long t d) (spread-eq n 0 buf h) e

parse_payload-Long :
    (t : PacketType) (d : ℕ) (buf : List ℕ) → needed t ≤ d → 8 + d ≤ length buf → Long t d buf
unfolding parse_payload needed type_of
parse_payload-Long PacketType.dinf d buf k f =
    on_cells 22 PacketType.dinf d buf (omega arith) λ h. grind (arith, u16_lt)
parse_payload-Long PacketType.dmmv d buf k f =
    on_cells 12 PacketType.dmmv d buf (omega arith) λ h. grind (arith, u16_lt)
parse_payload-Long PacketType.dmrm d buf k f =
    on_cells 12 PacketType.dmrm d buf (omega arith) λ h. grind (arith, u16_lt, IsInt16-int16_of_u16)
parse_payload-Long PacketType.dmwm d buf k f =
    on_cells 12 PacketType.dmwm d buf (omega arith) λ h. grind (arith, u16_lt, IsInt16-int16_of_u16)
parse_payload-Long PacketType.dmup d buf k f =
    on_cells 9 PacketType.dmup d buf (omega arith) λ h. grind (arith, IsInt8-int8_of_u8)
parse_payload-Long PacketType.dmdn d buf k f =
    on_cells 9 PacketType.dmdn d buf (omega arith) λ h. grind (arith, IsInt8-int8_of_u8)
parse_payload-Long PacketType.cinn d buf k f =
    on_cells 18 PacketType.cinn d buf (omega arith) λ h. grind (arith, u16_lt, u32_lt)
parse_payload-Long PacketType.dkup d buf k f =
    on_cells 14 PacketType.dkup d buf (omega arith) λ h. grind (arith, u16_lt)
parse_payload-Long PacketType.dkdn d buf k f =
    on_cells 14 PacketType.dkdn d buf (omega arith) λ h. grind (arith, u16_lt)
parse_payload-Long PacketType.dkrp d buf k f =
    on_cells 16 PacketType.dkrp d buf (omega arith) λ h. grind (arith, u16_lt)
parse_payload-Long PacketType.dclp d buf k f =
    on_cells 13 PacketType.dclp d buf (omega arith) λ h. grind (arith, u32_lt)
parse_payload-Long PacketType.eicv d buf k f =
    on_cells 12 PacketType.eicv d buf (omega arith) λ h. grind (arith, u16_lt)
parse_payload-Long PacketType.cclp d buf k f = λ h. ground arith
parse_payload-Long _ d buf k f = λ h. ground arith

-- The type that the four letters of the buffer name.
abbrev pub code_of : List ℕ → PacketType
code_of buf = code_to_type (take 4 (drop 4 buf))

announced : (n : ℕ) → (if leb barrier_code_len n then n - barrier_code_len else 0) ≡ n - 4
announced n = ground arith

abbrev Steps : ℕ → ℕ → List ℕ → Type 0
Steps len n b =
    io_read_u32_be b 0 ≡ done n → packet_parse b len ≡ parse_payload b (n - 4) (code_of b)

header_step : (len n : ℕ) (buf : List ℕ) → 8 ≤ len → 8 ≤ length buf → Steps len n buf
unfolding packet_parse
header_step len n buf l f =
    subst (Steps len n) (spread-eq 8 0 buf f) λ h. rw (le→ltb len 8 l, h, announced n)

-- With at least eight bytes in the buffer and the announced length inside it, no read leaves the
-- buffer. The size error comes exactly when less data is announced than the type needs; otherwise
-- the result is a packet of the type that the code names, with every field in the range of its C
-- type.
pub parse_branches :
    (buf : List ℕ) (len n : ℕ)
    → IsBytes buf
    → 8 ≤ len
    → 8 ≤ length buf
    → io_read_u32_be buf 0 ≡ done n
    → 4 + n ≤ length buf
    → (n - 4 < needed (code_of buf)) × (packet_parse buf len ≡ error esp_err_invalid_size)
      ⊎ (needed (code_of buf) ≤ n - 4) × IsParsed (code_of buf) (packet_parse buf len)
parse_branches buf len n bytes l f h k =
    rw (header_step len n buf l f h) (elim (dec_lt (n - 4) (needed (code_of buf))) [
      | yes short ↦ inl (short, parse_payload_short buf (n - 4) (code_of buf) short)
      | no long ↦ inr (
        omega arith,
        parse_payload-Long (code_of buf) (n - 4) buf (omega arith) (omega arith) bytes,
      )
    ])
