-- ===== src/Examples/Messages.antt =====
-- Protobuf messages, and the format that protobuf documents: varints in groups of seven bits, lowest
-- first, behind one byte for the field's number and kind.
use quic_keys.Common.{
  ℕ, zero, suc, ◌+◌, ◌*◌, ◌/◌, ◌%◌, true, [], ◌∷◌, ◌++◌, none, some, arith, Bytes, ltb,
  if◌then◌else◌, length, length-append,
}
use quic_keys.Protobuf.{WireFormat, Header, Edge, Snapshot}
use quic_keys.Protobuf.Sizes.{IsMeasured}
use quic_keys.Examples.{bits}

-- At most ten groups.
unfoldable pub groups : ℕ → ℕ → Bytes
groups zero n = []
groups (suc fuel) n =
    let rest = groups fuel (n / 128) in if ltb n 128 then n ∷ [] else (n % 128 + 128) ∷ rest

abbrev pub varint : ℕ → Bytes
varint n = groups 10 n

abbrev pub documented : WireFormat
documented = record {
  write_uint32 = λ field x. (field * 8) ∷ varint x;
  write_uint64 = λ field x. (field * 8) ∷ varint x;
  write_bool = λ field b. (field * 8) ∷ (if b then 1 else 0) ∷ [];
  write_bytes = λ field bs. (field * 8 + 2) ∷ (varint (length bs) ++ bs);
  write_message = λ field size body. (field * 8 + 2) ∷ (varint size ++ body);
  uint32_size_plus_one = λ x. length (varint x) + 1;
  uint64_size_plus_one = λ x. length (varint x) + 1;
  bytes_size = λ bs. length (varint (length bs)) + length bs;
  message_size = λ size. length (varint size) + size;
}

pub documented-IsMeasured : IsMeasured documented
documented-IsMeasured = record {
  uint32 = λ field x h. omega arith;
  uint64 = λ field x h. omega arith;
  bool = λ field b h. omega arith;
  bytes = λ field bs h. omega (arith, length-append (varint (length bs)) bs);
  message = λ field size body h e. omega (arith, length-append (varint size) body);
}

-- A header with a stale size.
abbrev pub header : Header
header = record { version = 1; seq = 300; t_ms = 70000; unknown_fields = []; cached_size = 99 }

abbrev pub press : Edge
press = record {
  hdr = some header;
  hid_usage = 4;
  is_down = true;
  modifiers = 0;
  unknown_fields = 40 ∷ 1 ∷ [];
  cached_size = 0;
}

abbrev pub picture : Snapshot
picture = record {
  hdr = some header;
  modifiers = 2;
  pressed_bitmap = bits;
  unknown_fields = [];
  cached_size = 5;
}

abbrev pub old_picture : Snapshot
old_picture = record {
  hdr = none;
  modifiers = 1;
  pressed_bitmap = 7 ∷ [];
  unknown_fields = 8 ∷ [];
  cached_size = 3;
}
