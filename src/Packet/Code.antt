-- ===== src/Packet/Code.antt =====
-- `code_to_type`, `type_to_code` and `packet_type_to_string` of main/barrier/barrier_packet.c.
use esp32_deskflow.Prelude.{ℕ, List, [], ◌∷◌, memcmp_eq, if◌then◌else◌}
use esp32_deskflow.Packet.{PacketType}

-- `code` is the array of four characters.
unfoldable pub code_to_type : List ℕ → PacketType
code_to_type code =
    if memcmp_eq code (b'Q' ∷ b'I' ∷ b'N' ∷ b'F' ∷ [])
    then PacketType.qinf
    else if memcmp_eq code (b'D' ∷ b'I' ∷ b'N' ∷ b'F' ∷ [])
    then PacketType.dinf
    else if memcmp_eq code (b'C' ∷ b'I' ∷ b'A' ∷ b'K' ∷ [])
    then PacketType.ciak
    else if memcmp_eq code (b'C' ∷ b'A' ∷ b'L' ∷ b'V' ∷ [])
    then PacketType.calv
    else if memcmp_eq code (b'C' ∷ b'N' ∷ b'O' ∷ b'P' ∷ [])
    then PacketType.cnop
    else if memcmp_eq code (b'C' ∷ b'I' ∷ b'N' ∷ b'N' ∷ [])
    then PacketType.cinn
    else if memcmp_eq code (b'C' ∷ b'O' ∷ b'U' ∷ b'T' ∷ [])
    then PacketType.cout
    else if memcmp_eq code (b'D' ∷ b'M' ∷ b'M' ∷ b'V' ∷ [])
    then PacketType.dmmv
    else if memcmp_eq code (b'D' ∷ b'M' ∷ b'R' ∷ b'M' ∷ [])
    then PacketType.dmrm
    else if memcmp_eq code (b'D' ∷ b'M' ∷ b'U' ∷ b'P' ∷ [])
    then PacketType.dmup
    else if memcmp_eq code (b'D' ∷ b'M' ∷ b'D' ∷ b'N' ∷ [])
    then PacketType.dmdn
    else if memcmp_eq code (b'D' ∷ b'M' ∷ b'W' ∷ b'M' ∷ [])
    then PacketType.dmwm
    else if memcmp_eq code (b'D' ∷ b'K' ∷ b'U' ∷ b'P' ∷ [])
    then PacketType.dkup
    else if memcmp_eq code (b'D' ∷ b'K' ∷ b'D' ∷ b'N' ∷ [])
    then PacketType.dkdn
    else if memcmp_eq code (b'D' ∷ b'K' ∷ b'R' ∷ b'P' ∷ [])
    then PacketType.dkrp
    else if memcmp_eq code (b'C' ∷ b'C' ∷ b'L' ∷ b'P' ∷ [])
    then PacketType.cclp
    else if memcmp_eq code (b'D' ∷ b'C' ∷ b'L' ∷ b'P' ∷ [])
    then PacketType.dclp
    else if memcmp_eq code (b'C' ∷ b'B' ∷ b'Y' ∷ b'E' ∷ [])
    then PacketType.cbye
    else if memcmp_eq code (b'E' ∷ b'U' ∷ b'N' ∷ b'K' ∷ [])
    then PacketType.eunk
    else if memcmp_eq code (b'E' ∷ b'B' ∷ b'S' ∷ b'Y' ∷ [])
    then PacketType.ebsy
    else if memcmp_eq code (b'E' ∷ b'B' ∷ b'A' ∷ b'D' ∷ [])
    then PacketType.ebad
    else if memcmp_eq code (b'E' ∷ b'I' ∷ b'C' ∷ b'V' ∷ [])
    then PacketType.eicv
    else if memcmp_eq code (b'C' ∷ b'R' ∷ b'O' ∷ b'P' ∷ [])
    then PacketType.crop
    else if memcmp_eq code (b'D' ∷ b'S' ∷ b'O' ∷ b'P' ∷ [])
    then PacketType.dsop
    else PacketType.unknown

unfoldable pub type_to_code : PacketType → List ℕ
type_to_code PacketType.qinf = b'Q' ∷ b'I' ∷ b'N' ∷ b'F' ∷ []
type_to_code PacketType.dinf = b'D' ∷ b'I' ∷ b'N' ∷ b'F' ∷ []
type_to_code PacketType.ciak = b'C' ∷ b'I' ∷ b'A' ∷ b'K' ∷ []
type_to_code PacketType.calv = b'C' ∷ b'A' ∷ b'L' ∷ b'V' ∷ []
type_to_code PacketType.cnop = b'C' ∷ b'N' ∷ b'O' ∷ b'P' ∷ []
type_to_code PacketType.cinn = b'C' ∷ b'I' ∷ b'N' ∷ b'N' ∷ []
type_to_code PacketType.cout = b'C' ∷ b'O' ∷ b'U' ∷ b'T' ∷ []
type_to_code PacketType.dmmv = b'D' ∷ b'M' ∷ b'M' ∷ b'V' ∷ []
type_to_code PacketType.dmrm = b'D' ∷ b'M' ∷ b'R' ∷ b'M' ∷ []
type_to_code PacketType.dmup = b'D' ∷ b'M' ∷ b'U' ∷ b'P' ∷ []
type_to_code PacketType.dmdn = b'D' ∷ b'M' ∷ b'D' ∷ b'N' ∷ []
type_to_code PacketType.dmwm = b'D' ∷ b'M' ∷ b'W' ∷ b'M' ∷ []
type_to_code PacketType.dkup = b'D' ∷ b'K' ∷ b'U' ∷ b'P' ∷ []
type_to_code PacketType.dkdn = b'D' ∷ b'K' ∷ b'D' ∷ b'N' ∷ []
type_to_code PacketType.dkrp = b'D' ∷ b'K' ∷ b'R' ∷ b'P' ∷ []
type_to_code PacketType.cclp = b'C' ∷ b'C' ∷ b'L' ∷ b'P' ∷ []
type_to_code PacketType.dclp = b'D' ∷ b'C' ∷ b'L' ∷ b'P' ∷ []
type_to_code PacketType.cbye = b'C' ∷ b'B' ∷ b'Y' ∷ b'E' ∷ []
type_to_code PacketType.eunk = b'E' ∷ b'U' ∷ b'N' ∷ b'K' ∷ []
type_to_code PacketType.ebsy = b'E' ∷ b'B' ∷ b'S' ∷ b'Y' ∷ []
type_to_code PacketType.ebad = b'E' ∷ b'B' ∷ b'A' ∷ b'D' ∷ []
type_to_code PacketType.eicv = b'E' ∷ b'I' ∷ b'C' ∷ b'V' ∷ []
type_to_code PacketType.crop = b'C' ∷ b'R' ∷ b'O' ∷ b'P' ∷ []
type_to_code PacketType.dsop = b'D' ∷ b'S' ∷ b'O' ∷ b'P' ∷ []
type_to_code PacketType.unknown = b'?' ∷ b'?' ∷ b'?' ∷ b'?' ∷ []

unfoldable pub packet_type_to_string : PacketType → List ℕ
unfolding type_to_code
packet_type_to_string type = type_to_code type
