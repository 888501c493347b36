-- ===== src/Packet.antt =====
-- main/barrier/barrier_packet.h: the packet types of the Barrier protocol and `packet_t`. A packet
-- is its tag with the members of the union that the tag selects.
pub mod Code
pub mod Parse
pub mod Serialize
pub mod Wire
pub mod Emit
pub mod RoundTrip
pub mod Names
pub mod Bounds
pub mod Limits
mod Tests
use esp32_deskflow.Prelude.{ℕ, ◌^◌, ◌<◌, ℤ, IsInt8, IsInt16}

-- `packet_type_t`
pub data PacketType : Type 0 where
  qinf dinf ciak calv cnop cinn cout dmmv dmrm dmup dmdn dmwm : PacketType
  dkup dkdn dkrp cclp dclp cbye eunk ebsy ebad eicv crop dsop unknown : PacketType

-- `packet_t`
pub data Packet : Type 0 where
  qinf ciak calv cnop cout cbye eunk ebsy ebad crop dsop unknown : Packet
  -- x y w h dummy mx my
  dinf : ℕ → ℕ → ℕ → ℕ → ℕ → ℕ → ℕ → Packet
  -- x y
  dmmv : ℕ → ℕ → Packet
  -- dx dy
  dmrm : ℤ → ℤ → Packet
  -- id
  dmup : ℤ → Packet
  -- id
  dmdn : ℤ → Packet
  -- dx dy
  dmwm : ℤ → ℤ → Packet
  -- x y seq mask
  cinn : ℕ → ℕ → ℕ → ℕ → Packet
  -- id mask button
  dkup : ℕ → ℕ → ℕ → Packet
  -- id mask button
  dkdn : ℕ → ℕ → ℕ → Packet
  -- id mask count button
  dkrp : ℕ → ℕ → ℕ → ℕ → Packet
  -- id seq
  cclp : ℕ → ℕ → Packet
  -- id seq
  dclp : ℕ → ℕ → Packet
  -- major minor
  eicv : ℕ → ℕ → Packet

-- `pkt->type`
unfoldable pub type_of : Packet → PacketType
type_of qinf = PacketType.qinf
type_of ciak = PacketType.ciak
type_of calv = PacketType.calv
type_of cnop = PacketType.cnop
type_of cout = PacketType.cout
type_of cbye = PacketType.cbye
type_of eunk = PacketType.eunk
type_of ebsy = PacketType.ebsy
type_of ebad = PacketType.ebad
type_of crop = PacketType.crop
type_of dsop = PacketType.dsop
type_of unknown = PacketType.unknown
type_of (dinf x y w h dummy mx my) = PacketType.dinf
type_of (dmmv x y) = PacketType.dmmv
type_of (dmrm dx dy) = PacketType.dmrm
type_of (dmup id) = PacketType.dmup
type_of (dmdn id) = PacketType.dmdn
type_of (dmwm dx dy) = PacketType.dmwm
type_of (cinn x y seq mask) = PacketType.cinn
type_of (dkup id mask button) = PacketType.dkup
type_of (dkdn id mask button) = PacketType.dkdn
type_of (dkrp id mask count button) = PacketType.dkrp
type_of (cclp id seq) = PacketType.cclp
type_of (dclp id seq) = PacketType.dclp
type_of (eicv major minor) = PacketType.eicv

-- Every field is a value of its C type.
abbrev pub IsPacket : Packet → Type 0
IsPacket (dinf x y w h dummy mx my) =
    (x < 2 ^ 16)
    × (y < 2 ^ 16)
    × (w < 2 ^ 16)
    × (h < 2 ^ 16)
    × (dummy < 2 ^ 16)
    × (mx < 2 ^ 16)
    × (my < 2 ^ 16)
IsPacket (dmmv x y) = (x < 2 ^ 16) × (y < 2 ^ 16)
IsPacket (dmrm dx dy) = IsInt16 dx × IsInt16 dy
IsPacket (dmup id) = IsInt8 id
IsPacket (dmdn id) = IsInt8 id
IsPacket (dmwm dx dy) = IsInt16 dx × IsInt16 dy
IsPacket (cinn x y seq mask) = (x < 2 ^ 16) × (y < 2 ^ 16) × (seq < 2 ^ 32) × (mask < 2 ^ 16)
IsPacket (dkup id mask button) = (id < 2 ^ 16) × (mask < 2 ^ 16) × (button < 2 ^ 16)
IsPacket (dkdn id mask button) = (id < 2 ^ 16) × (mask < 2 ^ 16) × (button < 2 ^ 16)
IsPacket (dkrp id mask count button) =
    (id < 2 ^ 16) × (mask < 2 ^ 16) × (count < 2 ^ 16) × (button < 2 ^ 16)
IsPacket (cclp id seq) = (id < 2 ^ 8) × (seq < 2 ^ 32)
IsPacket (dclp id seq) = (id < 2 ^ 8) × (seq < 2 ^ 32)
IsPacket (eicv major minor) = (major < 2 ^ 16) × (minor < 2 ^ 16)
IsPacket _ = Unit {0}
