-- ===== src/Packet/Tests.antt =====
-- Runs of the packet code, and its theorems at concrete inputs.
use esp32_deskflow.Prelude.{
  ℕ, ◌+◌, ◌-◌, ◌≤◌, ◌<◌, ◌≡◌, ◌⊎◌, refl, List, [], ◌∷◌, ◌++◌, arith, some, pos, negsuc, replicate,
  drop, length, if◌then◌else◌, ltb,
}
use esp32_deskflow.Esp.{done, error, esp_ok, esp_err_no_mem, esp_err_invalid_size}
use esp32_deskflow.Io.{io_read_u32_be}
use esp32_deskflow.Packet.{type_of, dmmv, dmrm, dkdn}
use esp32_deskflow.Packet.Code.{code_to_type}
use esp32_deskflow.Packet.Parse.{packet_parse, parse_payload}
use esp32_deskflow.Packet.Serialize.{payload_data_len, serialize_into, packet_serialize}
use esp32_deskflow.Packet.Wire.{fields, wire, wire_len}
use esp32_deskflow.Packet.Emit.{packet_serialize-eq-wire}
use esp32_deskflow.Packet.RoundTrip.{received, parse-serialize}
use esp32_deskflow.Packet.Bounds.{needed, code_of, IsParsed, parse_branches}

abbrev scratch : List ℕ
scratch = replicate 24 0xaa

-- "DMRM" with dx = -2 and dy = 3.
abbrev wheel_frame : List ℕ
wheel_frame = 0 ∷ 0 ∷ 0 ∷ 8 ∷ 68 ∷ 77 ∷ 82 ∷ 77 ∷ 255 ∷ 254 ∷ 0 ∷ 3 ∷ []

serialize_runs :
    packet_serialize (some (dmrm (negsuc 1) (pos 3))) (some scratch) (some 24)
    ≡ (esp_ok, some (wheel_frame ++ replicate 12 0xaa), some 12)
unfolding packet_serialize serialize_into
serialize_runs = refl

parse_runs : packet_parse wheel_frame 12 ≡ done (dmrm (negsuc 1) (pos 3))
unfolding packet_parse io_read_u32_be code_to_type parse_payload
parse_runs = refl

parse_too_short : packet_parse wheel_frame 7 ≡ error esp_err_invalid_size
unfolding packet_parse
parse_too_short = refl

packet_serialize-eq-wire_example : packet_serialize (some (dmmv 300 5)) (some scratch) (some 24) ≡ (
    if ltb 24 (8 + wire_len (dmmv 300 5)) then (esp_err_no_mem, some scratch, some 24) else (
      esp_ok,
      some (wire (dmmv 300 5) ++ drop (8 + length (fields (dmmv 300 5))) scratch),
      some (8 + wire_len (dmmv 300 5)),
    ))
packet_serialize-eq-wire_example =
    packet_serialize-eq-wire (dmmv 300 5) scratch 24 (omega arith) (omega arith)

parse-serialize_example :
    (out : List ℕ) × (n : ℕ) × (packet_serialize (some (dkdn 97 1 30)) (some scratch) (some 24)
      ≡ (esp_ok, some out, some n))
    × (packet_parse out n ≡ done (received (dkdn 97 1 30)))
unfolding payload_data_len type_of
parse-serialize_example =
    parse-serialize (dkdn 97 1 30) scratch 24 (omega arith) (omega arith) (omega arith)

parse_branches_example :
    (8 - 4 < needed (code_of wheel_frame))
      × (packet_parse wheel_frame 12 ≡ error esp_err_invalid_size)
    ⊎ (needed (code_of wheel_frame) ≤ 8 - 4)
      × IsParsed (code_of wheel_frame) (packet_parse wheel_frame 12)
unfolding io_read_u32_be
parse_branches_example =
    parse_branches wheel_frame 12 8 (omega arith) (omega arith) (omega arith) refl (omega arith)
