-- ===== src/Actuator/Descriptor.antt =====
-- The report descriptor of main/tusb/tusb_device.c, and what a USB host reads of a report by it.
use esp32_deskflow.Prelude.{
  ℕ, zero, suc, ◌+◌, ◌-◌, ◌*◌, ◌/◌, ◌%◌, ◌^◌, ◌==◌, ltb, ℤ, pos, negsuc, ltb_ℤ, int8_of_u8,
  int16_of_u16, Bool, List, [], ◌∷◌, ◌++◌, take, drop, length, replicate, if◌then◌else◌,
}

-- `hid_report_descriptor_main` behind the keyboard's part, which is a macro of TinyUSB.
abbrev pub hid_report_descriptor_mouse : List ℕ
hid_report_descriptor_mouse =
    0x05 ∷ 0x01 ∷ 0x09 ∷ 0x02 ∷ 0xa1 ∷ 0x01 ∷ 0x85 ∷ 0x04 ∷ 0x09 ∷ 0x01 ∷ 0xa1 ∷ 0x00 ∷ 0x05 ∷ 0x09
    ∷ 0x19 ∷ 0x01 ∷ 0x29 ∷ 0x03 ∷ 0x15 ∷ 0x00 ∷ 0x25 ∷ 0x01 ∷ 0x95 ∷ 0x03 ∷ 0x75 ∷ 0x01 ∷ 0x81
    ∷ 0x02 ∷ 0x95 ∷ 0x01 ∷ 0x75 ∷ 0x05 ∷ 0x81 ∷ 0x03 ∷ 0x05 ∷ 0x01 ∷ 0x09 ∷ 0x30 ∷ 0x09 ∷ 0x31
    ∷ 0x15 ∷ 0x00 ∷ 0x26 ∷ 0xff ∷ 0x7f ∷ 0x75 ∷ 0x10 ∷ 0x95 ∷ 0x02 ∷ 0x81 ∷ 0x02 ∷ 0x15 ∷ 0x81
    ∷ 0x25 ∷ 0x7f ∷ 0x09 ∷ 0x38 ∷ 0x75 ∷ 0x08 ∷ 0x95 ∷ 0x01 ∷ 0x81 ∷ 0x06 ∷ 0xc0 ∷ 0xc0 ∷ []

-- A field of a report as the HID standard reads it: its bits, whether it is padding, and the range of its
-- values.
pub record Field : Type 0 where
  pub size : ℕ
  pub constant : Bool
  pub minimum : ℤ
  pub maximum : ℤ

-- The items that stay in force.
pub record Globals : Type 0 where
  pub report_size : ℕ
  pub report_count : ℕ
  pub logical_minimum : ℤ
  pub logical_maximum : ℤ

-- The value of a short item: none, one or two bytes, signed.
abbrev pub item_value : List ℕ → ℤ
item_value [] = pos 0
item_value (b ∷ []) = int8_of_u8 b
item_value (b ∷ c ∷ rest) = int16_of_u16 (b + c * 2 ^ 8)

abbrev pub item_number : List ℕ → ℕ
item_number [] = 0
item_number (b ∷ rest) = b

-- The tags Logical Minimum, Logical Maximum, Report Size and Report Count; the others say nothing of the
-- bits.
abbrev pub updated : ℕ → List ℕ → Globals → Globals
updated tag value g =
    if tag == 0x14
    then record g { logical_minimum = item_value value }
    else if tag == 0x24
    then record g { logical_maximum = item_value value }
    else if tag == 0x74
    then record g { report_size = item_number value }
    else if tag == 0x94
    then record g { report_count = item_number value }
    else g

-- The tag Input makes the fields.
abbrev pub fields_of : ℕ → List ℕ → Globals → List Field
fields_of tag value g =
    if tag == 0x80
    then replicate g.report_count (record {
      size = g.report_size;
      constant = item_number value % 2 == 1;
      minimum = g.logical_minimum;
      maximum = g.logical_maximum;
    })
    else []

-- The fields of a descriptor of at most as many items: the last two bits of an item's first byte are the
-- number of bytes that follow.
abbrev pub fields : ℕ → Globals → List ℕ → List Field
fields zero g bytes = []
fields (suc n) g [] = []
fields (suc n) g (prefix ∷ bytes) =
    let value = take (prefix % 4) bytes in
    let tag = prefix - prefix % 4 in
    fields_of tag value g ++ fields n (updated tag value g) (drop (prefix % 4) bytes)

-- The bits of a report, the lowest first.
abbrev pub number : List ℕ → ℕ
number [] = 0
number (b ∷ bytes) = b + number bytes * 2 ^ 8

-- The value of a field, which is signed when its range is.
abbrev pub field_value : Field → ℕ → ℤ
field_value f v =
    if ltb_ℤ f.minimum (pos 0)
    then (if ltb v (2 ^ (f.size - 1)) then pos v else negsuc (2 ^ f.size - v - 1))
    else pos v

-- What the host reads of a report, without the padding.
abbrev pub host_values : List Field → ℕ → List ℤ
host_values [] bits = []
host_values (f ∷ fs) bits =
    let rest = host_values fs (bits / 2 ^ f.size) in
    if f.constant then rest else field_value f (bits % 2 ^ f.size) ∷ rest

abbrev pub no_globals : Globals
no_globals = record {
  report_size = 0;
  report_count = 0;
  logical_minimum = pos 0;
  logical_maximum = pos 0;
}

abbrev pub mouse_fields : List Field
mouse_fields = fields (length hid_report_descriptor_mouse) no_globals hid_report_descriptor_mouse
