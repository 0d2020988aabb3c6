-- ===== src/Usb/Items.antt =====
-- How the guest reads a report descriptor: the short items of the HID standard, and the fields of the
-- input and output reports that they declare. An independent description of the tables.
use quic_keys.Common.{
  ℕ, zero, suc, ◌+◌, ◌-◌, ◌*◌, ◌/◌, ◌%◌, Bool, true, false, List, [], ◌∷◌, Bytes, ◌==◌,
  if◌then◌else◌, length, take, drop,
}

-- An item's first byte without the two bits of its length, and its value.
pub record Item : Type 0 where
  pub prefix : ℕ
  pub value : ℕ

data_size : ℕ → ℕ
data_size b = if b % 4 == 3 then 4 else b % 4

little_endian : Bytes → ℕ
little_endian [] = 0
little_endian (b ∷ bs) = b + 256 * little_endian bs

-- On fuel: an item takes at least one byte.
items_in : ℕ → Bytes → List Item
items_in zero bs = []
items_in (suc fuel) [] = []
items_in (suc fuel) (b ∷ bs) =
    record { prefix = b - b % 4; value = little_endian (take (data_size b) bs) }
    ∷ items_in fuel (drop (data_size b) bs)

unfoldable pub items : Bytes → List Item
unfolding items_in data_size little_endian
items bs = items_in (length bs) bs

-- A main item with the globals and the usages before it: `count` values of `size` bits.
pub record Field : Type 0 where
  pub is_input : Bool
  pub flags : ℕ
  pub page : ℕ
  pub usage_min : ℕ
  pub usage_max : ℕ
  pub size : ℕ
  pub count : ℕ

abbrev no_field : Field
no_field = record {
  is_input = false;
  flags = 0;
  page = 0;
  usage_min = 0;
  usage_max = 0;
  size = 0;
  count = 0;
}

-- The tags that matter here; any other item is skipped. The usages do not outlive a main item.
fields_from : Field → List Item → List Field
fields_from g [] = []
fields_from g (i ∷ is) =
    let main = record g { usage_min = 0; usage_max = 0 } in
    let input = record g { is_input = true; flags = i.value } ∷ fields_from main is in
    let output = record g { flags = i.value } ∷ fields_from main is in
    let skip =
      fields_from
        (if i.prefix == 0x04
          then record g { page = i.value }
          else if i.prefix == 0x74
          then record g { size = i.value }
          else if i.prefix == 0x94
          then record g { count = i.value }
          else if i.prefix == 0x18
          then record g { usage_min = i.value }
          else if i.prefix == 0x28
          then record g { usage_max = i.value }
          else g)
        is in
    if i.prefix == 0x80 then input else if i.prefix == 0x90 then output else skip

unfoldable pub fields : Bytes → List Field
unfolding items fields_from
fields bs = fields_from no_field (items bs)

-- The bits of an input report.
unfoldable pub input_bits : List Field → ℕ
input_bits [] = 0
input_bits (f ∷ fs) = (if f.is_input then f.size * f.count else 0) + input_bits fs

-- A report cut into its input fields, for fields of whole bytes.
unfoldable pub cut_input : List Field → Bytes → List Bytes
cut_input [] bs = []
cut_input (f ∷ fs) bs =
    let n = f.size * f.count / 8 in
    let taken = take n bs ∷ cut_input fs (drop n bs) in
    let skipped = cut_input fs bs in if f.is_input then taken else skipped
