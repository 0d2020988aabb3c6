-- ===== src/Protobuf.antt =====
-- The messages of daemon/proto/remoter.proto as daemon/include/remoter.pb.cc handles them: clearing,
-- merging, copying, measuring and writing. The functions of the protobuf library that it calls are
-- fields of `WireFormat`; a set of unknown fields is kept as the bytes that it is written to.
pub mod Sizes
pub mod Copies
pub mod Parsing
use quic_keys.Common.{
  ℕ, ◌+◌, ◌<◌, Bool, true, false, [], ◌∷◌, ◌++◌, Option, none, some, ◌≡◌, Bytes, ◌==◌,
  if◌then◌else◌, length,
}

-- `WireFormatLite` and the stream: a field's number first. `write_message` takes the size that
-- `GetCachedSize` gives and the bytes of the message.
pub record WireFormat : Type 0 where
  pub write_uint32 : ℕ → ℕ → Bytes
  pub write_uint64 : ℕ → ℕ → Bytes
  pub write_bool : ℕ → Bool → Bytes
  pub write_bytes : ℕ → Bytes → Bytes
  pub write_message : ℕ → ℕ → Bytes → Bytes
  pub uint32_size_plus_one : ℕ → ℕ
  pub uint64_size_plus_one : ℕ → ℕ
  pub bytes_size : Bytes → ℕ
  pub message_size : ℕ → ℕ

-- `cached_size` is what the last `ByteSizeLong` stored.
pub record Header : Type 0 where
  pub version : ℕ
  pub seq : ℕ
  pub t_ms : ℕ
  pub unknown_fields : Bytes
  pub cached_size : ℕ

pub record Edge : Type 0 where
  pub hdr : Option Header
  pub hid_usage : ℕ
  pub is_down : Bool
  pub modifiers : ℕ
  pub unknown_fields : Bytes
  pub cached_size : ℕ

pub record Snapshot : Type 0 where
  pub hdr : Option Header
  pub modifiers : ℕ
  pub pressed_bitmap : Bytes
  pub unknown_fields : Bytes
  pub cached_size : ℕ

-- The default instance.
abbrev pub new_header : Header
new_header = record { version = 0; seq = 0; t_ms = 0; unknown_fields = []; cached_size = 0 }

-- `Clear` leaves the cached size.
pub clear_header : Header → Header
clear_header h = record h { version = 0; seq = 0; t_ms = 0; unknown_fields = [] }

pub clear_edge : Edge → Edge
clear_edge e = record e {
  hdr = none;
  hid_usage = 0;
  is_down = false;
  modifiers = 0;
  unknown_fields = [];
}

pub clear_snapshot : Snapshot → Snapshot
clear_snapshot s = record s { hdr = none; modifiers = 0; pressed_bitmap = []; unknown_fields = [] }

-- `if (from.x() != 0) set_x(from.x());`
abbrev pub merged : ℕ → ℕ → ℕ
merged to from = if from == 0 then to else from

pub merge_header : Header → Header → Header
merge_header to from = record to {
  version = merged to.version from.version;
  seq = merged to.seq from.seq;
  t_ms = merged to.t_ms from.t_ms;
  unknown_fields = to.unknown_fields ++ from.unknown_fields;
}

-- `_internal_mutable_hdr()` makes a header where there is none.
pub merge_hdr : Option Header → Option Header → Option Header
merge_hdr to none = to
merge_hdr none (some from) = some (merge_header new_header from)
merge_hdr (some to) (some from) = some (merge_header to from)

pub merge_edge : Edge → Edge → Edge
merge_edge to from = record to {
  hdr = merge_hdr to.hdr from.hdr;
  hid_usage = merged to.hid_usage from.hid_usage;
  is_down = if from.is_down then true else to.is_down;
  modifiers = merged to.modifiers from.modifiers;
  unknown_fields = to.unknown_fields ++ from.unknown_fields;
}

pub merge_snapshot : Snapshot → Snapshot → Snapshot
merge_snapshot to from = record to {
  hdr = merge_hdr to.hdr from.hdr;
  modifiers = merged to.modifiers from.modifiers;
  pressed_bitmap =
      if length from.pressed_bitmap == 0 then to.pressed_bitmap else from.pressed_bitmap;
  unknown_fields = to.unknown_fields ++ from.unknown_fields;
}

-- `CopyFrom` another object.
pub copy_header : Header → Header → Header
copy_header to from = merge_header (clear_header to) from

pub copy_edge : Edge → Edge → Edge
copy_edge to from = merge_edge (clear_edge to) from

pub copy_snapshot : Snapshot → Snapshot → Snapshot
copy_snapshot to from = merge_snapshot (clear_snapshot to) from

module _ (w : WireFormat) where
  -- `_InternalSerialize`
  pub serialize_header : Header → Bytes
  serialize_header h =
      (if h.version == 0 then [] else w.write_uint32 1 h.version)
      ++ ((if h.seq == 0 then [] else w.write_uint32 2 h.seq)
          ++ ((if h.t_ms == 0 then [] else w.write_uint64 3 h.t_ms) ++ h.unknown_fields))

  pub serialize_hdr : Option Header → Bytes
  serialize_hdr none = []
  serialize_hdr (some h) = w.write_message 1 h.cached_size (serialize_header h)

  pub serialize_edge : Edge → Bytes
  serialize_edge e =
      serialize_hdr e.hdr
      ++ ((if e.hid_usage == 0 then [] else w.write_uint32 2 e.hid_usage)
          ++ ((if e.is_down then w.write_bool 3 true else [])
              ++ ((if e.modifiers == 0 then [] else w.write_uint32 4 e.modifiers)
                  ++ e.unknown_fields)))

  pub serialize_snapshot : Snapshot → Bytes
  serialize_snapshot s =
      serialize_hdr s.hdr
      ++ ((if s.modifiers == 0 then [] else w.write_uint32 2 s.modifiers)
          ++ ((if length s.pressed_bitmap == 0 then [] else w.write_bytes 3 s.pressed_bitmap)
              ++ s.unknown_fields))

  -- `ByteSizeLong` also stores the size in the message, and those of the messages under it.
  unfoldable pub header_size : Header → ℕ
  header_size h =
      (if h.version == 0 then 0 else w.uint32_size_plus_one h.version)
      + (if h.seq == 0 then 0 else w.uint32_size_plus_one h.seq)
      + (if h.t_ms == 0 then 0 else w.uint64_size_plus_one h.t_ms)
      + length h.unknown_fields

  pub measure_header : Header → ℕ × Header
  measure_header h = (header_size h, record h { cached_size = header_size h })

  measure_hdr : Option Header → ℕ × Option Header
  measure_hdr none = (0, none)
  measure_hdr (some h) = let (n, h') = measure_header h in (1 + w.message_size n, some h')

  pub measure_edge : Edge → ℕ × Edge
  measure_edge e =
      let (n, hdr) = measure_hdr e.hdr in
      let size =
        n
        + (if e.hid_usage == 0 then 0 else w.uint32_size_plus_one e.hid_usage)
        + (if e.is_down then 1 + 1 else 0)
        + (if e.modifiers == 0 then 0 else w.uint32_size_plus_one e.modifiers)
        + length e.unknown_fields in
      (size, record e { hdr = hdr; cached_size = size })

  pub measure_snapshot : Snapshot → ℕ × Snapshot
  measure_snapshot s =
      let (n, hdr) = measure_hdr s.hdr in
      let size =
        (if length s.pressed_bitmap == 0 then 0 else 1 + w.bytes_size s.pressed_bitmap)
        + n
        + (if s.modifiers == 0 then 0 else w.uint32_size_plus_one s.modifiers)
        + length s.unknown_fields in
      (size, record s { hdr = hdr; cached_size = size })
