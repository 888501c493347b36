-- ===== src/Keycodes/Tables.antt =====
-- The tables of main/tusb/keycodes.c, entry by entry.
use esp32_deskflow.Prelude.{ℕ, List, [], ◌∷◌, ◌++◌, replicate}

-- US QWERTY.
unfoldable pub table_us : List ℕ
table_us =
    0x00 ∷ 0x00 ∷ 0x00 ∷ 0x00 ∷ 0x00 ∷ 0x00 ∷ 0x00 ∷ 0x00 ∷ 0x00 ∷ 0x00 ∷ 0x00 ∷ 0x00 ∷ 0x00 ∷ 0x00
    ∷ 0x00 ∷ 0x00 ∷ 0x00 ∷ 0x00 ∷ 0x00 ∷ 0x00 ∷ 0x00 ∷ 0x00 ∷ 0x00 ∷ 0x00 ∷ 0x00 ∷ 0x00 ∷ 0x00
    ∷ 0x00 ∷ 0x00 ∷ 0x00 ∷ 0x00 ∷ 0x00 ∷ 0x2c ∷ 0x1e ∷ 0x34 ∷ 0x20 ∷ 0x21 ∷ 0x22 ∷ 0x24 ∷ 0x34
    ∷ 0x26 ∷ 0x27 ∷ 0x25 ∷ 0x2e ∷ 0x36 ∷ 0x2d ∷ 0x37 ∷ 0x38 ∷ 0x27 ∷ 0x1e ∷ 0x1f ∷ 0x20 ∷ 0x21
    ∷ 0x22 ∷ 0x23 ∷ 0x24 ∷ 0x25 ∷ 0x26 ∷ 0x33 ∷ 0x33 ∷ 0x36 ∷ 0x2e ∷ 0x37 ∷ 0x38 ∷ 0x1f ∷ 0x04
    ∷ 0x05 ∷ 0x06 ∷ 0x07 ∷ 0x08 ∷ 0x09 ∷ 0x0a ∷ 0x0b ∷ 0x0c ∷ 0x0d ∷ 0x0e ∷ 0x0f ∷ 0x10 ∷ 0x11
    ∷ 0x12 ∷ 0x13 ∷ 0x14 ∷ 0x15 ∷ 0x16 ∷ 0x17 ∷ 0x18 ∷ 0x19 ∷ 0x1a ∷ 0x1b ∷ 0x1c ∷ 0x1d ∷ 0x2f
    ∷ 0x31 ∷ 0x30 ∷ 0x23 ∷ 0x2d ∷ 0x35 ∷ 0x04 ∷ 0x05 ∷ 0x06 ∷ 0x07 ∷ 0x08 ∷ 0x09 ∷ 0x0a ∷ 0x0b
    ∷ 0x0c ∷ 0x0d ∷ 0x0e ∷ 0x0f ∷ 0x10 ∷ 0x11 ∷ 0x12 ∷ 0x13 ∷ 0x14 ∷ 0x15 ∷ 0x16 ∷ 0x17 ∷ 0x18
    ∷ 0x19 ∷ 0x1a ∷ 0x1b ∷ 0x1c ∷ 0x1d ∷ 0x2f ∷ 0x31 ∷ 0x30 ∷ 0x35 ∷ 0x00 ∷ 0x00 ∷ 0x00 ∷ 0x00
    ∷ 0x00 ∷ 0x00 ∷ 0x00 ∷ 0x00 ∷ 0x00 ∷ 0x00 ∷ 0x00 ∷ 0x00 ∷ 0x00 ∷ 0x00 ∷ 0x00 ∷ 0x00 ∷ 0x00
    ∷ 0x00 ∷ 0x00 ∷ 0x00 ∷ 0x00 ∷ 0x00 ∷ 0x00 ∷ 0x00 ∷ 0x00 ∷ 0x00 ∷ 0x00 ∷ 0x00 ∷ 0x00 ∷ 0x00
    ∷ 0x00 ∷ 0x00 ∷ 0x00 ∷ 0x00 ∷ 0x00 ∷ 0x00 ∷ 0x00 ∷ 0x00 ∷ 0x00 ∷ 0x00 ∷ 0x00 ∷ 0x00 ∷ 0x00
    ∷ 0x00 ∷ 0x00 ∷ 0x00 ∷ 0x00 ∷ 0x00 ∷ 0x00 ∷ 0x00 ∷ 0x00 ∷ 0x00 ∷ 0x00 ∷ 0x00 ∷ 0x00 ∷ 0x00
    ∷ 0x00 ∷ 0x00 ∷ 0x00 ∷ 0x00 ∷ 0x00 ∷ 0x00 ∷ 0x00 ∷ 0x00 ∷ 0x00 ∷ 0x00 ∷ 0x00 ∷ 0x00 ∷ 0x00
    ∷ 0x00 ∷ 0x00 ∷ 0x00 ∷ 0x00 ∷ 0x00 ∷ 0x00 ∷ 0x00 ∷ 0x00 ∷ 0x00 ∷ 0x00 ∷ 0x00 ∷ 0x00 ∷ 0x00
    ∷ 0x00 ∷ 0x00 ∷ 0x00 ∷ 0x00 ∷ 0x00 ∷ 0x00 ∷ 0x00 ∷ 0x00 ∷ 0x00 ∷ 0x00 ∷ 0x00 ∷ 0x00 ∷ 0x00
    ∷ 0x00 ∷ 0x00 ∷ 0x00 ∷ 0x00 ∷ 0x00 ∷ 0x00 ∷ 0x00 ∷ 0x00 ∷ 0x00 ∷ 0x00 ∷ 0x00 ∷ 0x00 ∷ 0x00
    ∷ 0x00 ∷ 0x00 ∷ 0x00 ∷ 0x00 ∷ 0x00 ∷ 0x00 ∷ 0x00 ∷ 0x00 ∷ 0x00 ∷ 0x00 ∷ 0x00 ∷ 0x00 ∷ 0x00
    ∷ 0x00 ∷ 0x00 ∷ 0x00 ∷ 0x00 ∷ 0x00 ∷ 0x00 ∷ 0x00 ∷ 0x00 ∷ []

-- German QWERTZ.
unfoldable pub table_de : List ℕ
table_de =
    0x00 ∷ 0x00 ∷ 0x00 ∷ 0x00 ∷ 0x00 ∷ 0x00 ∷ 0x00 ∷ 0x00 ∷ 0x00 ∷ 0x00 ∷ 0x00 ∷ 0x00 ∷ 0x00 ∷ 0x00
    ∷ 0x00 ∷ 0x00 ∷ 0x00 ∷ 0x00 ∷ 0x00 ∷ 0x00 ∷ 0x00 ∷ 0x00 ∷ 0x00 ∷ 0x00 ∷ 0x00 ∷ 0x00 ∷ 0x00
    ∷ 0x00 ∷ 0x00 ∷ 0x00 ∷ 0x00 ∷ 0x00 ∷ 0x2c ∷ 0x1e ∷ 0x1f ∷ 0x32 ∷ 0x21 ∷ 0x22 ∷ 0x23 ∷ 0x31
    ∷ 0x25 ∷ 0x26 ∷ 0x30 ∷ 0x30 ∷ 0x36 ∷ 0x38 ∷ 0x37 ∷ 0x24 ∷ 0x27 ∷ 0x1e ∷ 0x1f ∷ 0x20 ∷ 0x21
    ∷ 0x22 ∷ 0x23 ∷ 0x24 ∷ 0x25 ∷ 0x26 ∷ 0x37 ∷ 0x36 ∷ 0x64 ∷ 0x27 ∷ 0x64 ∷ 0x2d ∷ 0x14 ∷ 0x04
    ∷ 0x05 ∷ 0x06 ∷ 0x07 ∷ 0x08 ∷ 0x09 ∷ 0x0a ∷ 0x0b ∷ 0x0c ∷ 0x0d ∷ 0x0e ∷ 0x0f ∷ 0x10 ∷ 0x11
    ∷ 0x12 ∷ 0x13 ∷ 0x14 ∷ 0x15 ∷ 0x16 ∷ 0x17 ∷ 0x18 ∷ 0x19 ∷ 0x1a ∷ 0x1b ∷ 0x1d ∷ 0x1c ∷ 0x25
    ∷ 0x2d ∷ 0x26 ∷ 0x33 ∷ 0x38 ∷ 0x00 ∷ 0x04 ∷ 0x05 ∷ 0x06 ∷ 0x07 ∷ 0x08 ∷ 0x09 ∷ 0x0a ∷ 0x0b
    ∷ 0x0c ∷ 0x0d ∷ 0x0e ∷ 0x0f ∷ 0x10 ∷ 0x11 ∷ 0x12 ∷ 0x13 ∷ 0x14 ∷ 0x15 ∷ 0x16 ∷ 0x17 ∷ 0x18
    ∷ 0x19 ∷ 0x1a ∷ 0x1b ∷ 0x1d ∷ 0x1c ∷ 0x24 ∷ 0x64 ∷ 0x27 ∷ 0x30 ∷ 0x00 ∷ 0x00 ∷ 0x00 ∷ 0x00
    ∷ 0x00 ∷ 0x00 ∷ 0x00 ∷ 0x00 ∷ 0x00 ∷ 0x00 ∷ 0x00 ∷ 0x00 ∷ 0x00 ∷ 0x00 ∷ 0x00 ∷ 0x00 ∷ 0x00
    ∷ 0x00 ∷ 0x00 ∷ 0x00 ∷ 0x00 ∷ 0x00 ∷ 0x00 ∷ 0x00 ∷ 0x00 ∷ 0x00 ∷ 0x00 ∷ 0x00 ∷ 0x00 ∷ 0x00
    ∷ 0x00 ∷ 0x00 ∷ 0x00 ∷ 0x00 ∷ 0x00 ∷ 0x00 ∷ 0x00 ∷ 0x00 ∷ 0x00 ∷ 0x00 ∷ 0x20 ∷ 0x00 ∷ 0x00
    ∷ 0x00 ∷ 0x00 ∷ 0x00 ∷ 0x00 ∷ 0x00 ∷ 0x00 ∷ 0x35 ∷ 0x00 ∷ 0x00 ∷ 0x00 ∷ 0x00 ∷ 0x00 ∷ 0x00
    ∷ 0x00 ∷ 0x00 ∷ 0x00 ∷ 0x00 ∷ 0x00 ∷ 0x00 ∷ 0x00 ∷ 0x00 ∷ 0x00 ∷ 0x00 ∷ 0x00 ∷ 0x00 ∷ 0x00
    ∷ 0x34 ∷ 0x00 ∷ 0x00 ∷ 0x00 ∷ 0x00 ∷ 0x00 ∷ 0x00 ∷ 0x00 ∷ 0x00 ∷ 0x00 ∷ 0x00 ∷ 0x00 ∷ 0x00
    ∷ 0x00 ∷ 0x00 ∷ 0x00 ∷ 0x00 ∷ 0x00 ∷ 0x33 ∷ 0x00 ∷ 0x00 ∷ 0x00 ∷ 0x00 ∷ 0x00 ∷ 0x2f ∷ 0x00
    ∷ 0x00 ∷ 0x2d ∷ 0x00 ∷ 0x00 ∷ 0x00 ∷ 0x00 ∷ 0x34 ∷ 0x00 ∷ 0x00 ∷ 0x00 ∷ 0x00 ∷ 0x00 ∷ 0x00
    ∷ 0x00 ∷ 0x00 ∷ 0x00 ∷ 0x00 ∷ 0x00 ∷ 0x00 ∷ 0x00 ∷ 0x00 ∷ 0x00 ∷ 0x00 ∷ 0x00 ∷ 0x33 ∷ 0x00
    ∷ 0x00 ∷ 0x00 ∷ 0x00 ∷ 0x00 ∷ 0x2f ∷ 0x00 ∷ 0x00 ∷ 0x00 ∷ []

-- The initialiser of `EXT_TAB` has 248 entries; C fills the array of 256 up with zeros.
unfoldable pub ext_tab : List ℕ
ext_tab =
    (0x00 ∷ 0x00 ∷ 0x00 ∷ 0x00 ∷ 0x00 ∷ 0x00 ∷ 0x00 ∷ 0x00 ∷ 0x2a ∷ 0x2b ∷ 0x00 ∷ 0x9c ∷ 0x00 ∷ 0x28
      ∷ 0x00 ∷ 0x00 ∷ 0x00 ∷ 0x00 ∷ 0x00 ∷ 0x48 ∷ 0x47 ∷ 0x9a ∷ 0x00 ∷ 0x00 ∷ 0x00 ∷ 0x00 ∷ 0x00
      ∷ 0x29 ∷ 0x00 ∷ 0x00 ∷ 0x00 ∷ 0x00 ∷ 0x00 ∷ 0x00 ∷ 0x00 ∷ 0x00 ∷ 0x00 ∷ 0x00 ∷ 0x00 ∷ 0x00
      ∷ 0x00 ∷ 0x00 ∷ 0x00 ∷ 0x00 ∷ 0x00 ∷ 0x00 ∷ 0x00 ∷ 0x00 ∷ 0x00 ∷ 0x00 ∷ 0x00 ∷ 0x00 ∷ 0x00
      ∷ 0x00 ∷ 0x00 ∷ 0x00 ∷ 0x00 ∷ 0x00 ∷ 0x00 ∷ 0x00 ∷ 0x00 ∷ 0x00 ∷ 0x00 ∷ 0x00 ∷ 0x00 ∷ 0x00
      ∷ 0x00 ∷ 0x00 ∷ 0x00 ∷ 0x00 ∷ 0x00 ∷ 0x00 ∷ 0x00 ∷ 0x00 ∷ 0x00 ∷ 0x00 ∷ 0x00 ∷ 0x00 ∷ 0x00
      ∷ 0x00 ∷ 0x4a ∷ 0x50 ∷ 0x52 ∷ 0x4f ∷ 0x51 ∷ 0x4b ∷ 0x4e ∷ 0x4d ∷ 0x00 ∷ 0x00 ∷ 0x00 ∷ 0x00
      ∷ 0x00 ∷ 0x00 ∷ 0x00 ∷ 0x00 ∷ 0x77 ∷ 0x46 ∷ 0x74 ∷ 0x49 ∷ 0x00 ∷ 0x7a ∷ 0x00 ∷ 0x76 ∷ 0x7e
      ∷ 0x9b ∷ 0x75 ∷ 0x00 ∷ 0x00 ∷ 0x00 ∷ 0x00 ∷ 0x00 ∷ 0x00 ∷ 0x00 ∷ 0x00 ∷ 0x00 ∷ 0x00 ∷ 0x00
      ∷ 0x00 ∷ 0x00 ∷ 0x00 ∷ 0x00 ∷ 0x00 ∷ 0x00 ∷ 0x00 ∷ 0x00 ∷ 0x00 ∷ 0x53 ∷ 0x00 ∷ 0x00 ∷ 0x00
      ∷ 0x00 ∷ 0x00 ∷ 0x00 ∷ 0x00 ∷ 0x00 ∷ 0x00 ∷ 0x00 ∷ 0x00 ∷ 0x00 ∷ 0x00 ∷ 0x58 ∷ 0x00 ∷ 0x00
      ∷ 0x00 ∷ 0x00 ∷ 0x00 ∷ 0x00 ∷ 0x00 ∷ 0x5f ∷ 0x5c ∷ 0x60 ∷ 0x5e ∷ 0x5a ∷ 0x61 ∷ 0x5b ∷ 0x59
      ∷ 0x5d ∷ 0x62 ∷ 0x63 ∷ 0x00 ∷ 0x00 ∷ 0x55 ∷ 0x57 ∷ 0x00 ∷ 0x56 ∷ 0x63 ∷ 0x54 ∷ 0x62 ∷ 0x59
      ∷ 0x55 ∷ 0x57 ∷ 0x5c ∷ 0x56 ∷ 0x5e ∷ 0x54 ∷ 0x60 ∷ 0x61 ∷ 0x00 ∷ 0x00 ∷ 0x00 ∷ 0x67 ∷ 0x3a
      ∷ 0x3b ∷ 0x3c ∷ 0x3d ∷ 0x3e ∷ 0x3f ∷ 0x40 ∷ 0x41 ∷ 0x42 ∷ 0x43 ∷ 0x44 ∷ 0x45 ∷ 0x68 ∷ 0x69
      ∷ 0x6a ∷ 0x6b ∷ 0x6c ∷ 0x6d ∷ 0x6e ∷ 0x6f ∷ 0x70 ∷ 0x71 ∷ 0x72 ∷ 0x73 ∷ 0x00 ∷ 0x00 ∷ 0x00
      ∷ 0x00 ∷ 0x00 ∷ 0x00 ∷ 0x00 ∷ 0x00 ∷ 0x00 ∷ 0x00 ∷ 0x00 ∷ 0xe1 ∷ 0xe5 ∷ 0xe0 ∷ 0xe4 ∷ 0x39
      ∷ 0x00 ∷ 0xe2 ∷ 0xe6 ∷ 0xe1 ∷ 0xe5 ∷ 0xe0 ∷ 0xe7 ∷ 0x39 ∷ 0x00 ∷ 0x00 ∷ 0x00 ∷ 0x00 ∷ 0x00
      ∷ 0x00 ∷ 0x00 ∷ 0x00 ∷ 0x00 ∷ 0x00 ∷ 0x00 ∷ 0x00 ∷ 0x00 ∷ 0x00 ∷ 0x00 ∷ 0x00 ∷ 0x00 ∷ 0x4c
      ∷ [])
    ++ replicate 8 0

-- `HIGH_CHARS`, as pairs of `ch` and `hid`.
unfoldable pub high_chars : List (ℕ × ℕ)
high_chars = (0x20ac, 0x08) ∷ (0x0302, 0x35) ∷ (0x0301, 0x2e) ∷ (0x0300, 0x2e) ∷ []
