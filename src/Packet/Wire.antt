-- ===== src/Packet/Wire.antt =====
-- The wire format, described without buffers: a frame is a 32-bit length, the four-letter code and
-- the fields in order, all big-endian.
use esp32_deskflow.Prelude.{
  ℕ, ◌+◌, ◌/◌, ◌%◌, ◌^◌, ℤ, List, [], ◌∷◌, ◌++◌, u16_of_int, u8_of_int, codes, length,
}
use esp32_deskflow.Packet.{
  Packet, type_of, dinf, cinn, dmmv, dmrm, dmup, dmdn, dmwm, dkup, dkdn, dkrp, cclp, dclp, eicv,
}
use esp32_deskflow.Packet.Code.{type_to_code}

abbrev pub be16 : ℕ → List ℕ
be16 v = v / 256 ∷ v % 256 ∷ []

abbrev pub be32 : ℕ → List ℕ
be32 v = v / 2 ^ 24 ∷ v / 2 ^ 16 % 256 ∷ v / 256 % 256 ∷ v % 256 ∷ []

abbrev pub sbe16 : ℤ → List ℕ
sbe16 v = be16 (u16_of_int v)

-- The fields of a packet.
unfoldable pub fields : Packet → List ℕ
fields (dinf x y w h dummy mx my) =
    be16 x ++ (be16 y ++ (be16 w ++ (be16 h ++ (be16 dummy ++ (be16 mx ++ be16 my)))))
fields (dmmv x y) = be16 x ++ be16 y
fields (dmrm dx dy) = sbe16 dx ++ sbe16 dy
fields (dmup id) = u8_of_int id ∷ []
fields (dmdn id) = u8_of_int id ∷ []
fields (dmwm dx dy) = sbe16 dx ++ sbe16 dy
fields (cinn x y seq mask) = be16 x ++ (be16 y ++ (be32 seq ++ be16 mask))
fields (dkup id mask button) = be16 id ++ (be16 mask ++ be16 button)
fields (dkdn id mask button) = be16 id ++ (be16 mask ++ be16 button)
fields (dkrp id mask count button) = be16 id ++ (be16 mask ++ (be16 count ++ be16 button))
fields (cclp id seq) = id ∷ be32 seq
fields (dclp id seq) = id ∷ be32 seq
fields (eicv major minor) = be16 major ++ be16 minor
fields _ = []

-- A frame whose length field announces `n` bytes of data.
unfoldable pub frame : ℕ → Packet → List ℕ
unfolding fields type_of type_to_code
frame n p = be32 (4 + n) ++ (type_to_code (type_of p) ++ fields p)

-- The four letters of a frame, by the table of the protocol; a packet of no known type has question
-- marks.
unfoldable pub wire_code : Packet → List ℕ
wire_code Packet.qinf = codes "QINF"
wire_code (dinf x y w h dummy mx my) = codes "DINF"
wire_code Packet.ciak = codes "CIAK"
wire_code Packet.calv = codes "CALV"
wire_code Packet.cnop = codes "CNOP"
wire_code (cinn x y seq mask) = codes "CINN"
wire_code Packet.cout = codes "COUT"
wire_code (dmmv x y) = codes "DMMV"
wire_code (dmrm dx dy) = codes "DMRM"
wire_code (dmup id) = codes "DMUP"
wire_code (dmdn id) = codes "DMDN"
wire_code (dmwm dx dy) = codes "DMWM"
wire_code (dkup id mask button) = codes "DKUP"
wire_code (dkdn id mask button) = codes "DKDN"
wire_code (dkrp id mask count button) = codes "DKRP"
wire_code (cclp id seq) = codes "CCLP"
wire_code (dclp id seq) = codes "DCLP"
wire_code Packet.cbye = codes "CBYE"
wire_code Packet.eunk = codes "EUNK"
wire_code Packet.ebsy = codes "EBSY"
wire_code Packet.ebad = codes "EBAD"
wire_code (eicv major minor) = codes "EICV"
wire_code Packet.crop = codes "CROP"
wire_code Packet.dsop = codes "DSOP"
wire_code Packet.unknown = codes "????"

-- The bytes of data behind the code: as many as the fields take, and two more for CINN.
unfoldable pub wire_len : Packet → ℕ
unfolding fields
wire_len (cinn x y seq mask) = 12
wire_len p = length (fields p)

-- A frame, without the tables of the code.
unfoldable pub wire : Packet → List ℕ
unfolding fields wire_code wire_len
wire p = be32 (4 + wire_len p) ++ (wire_code p ++ fields p)
