-- ===== src/Protobuf/Sizes.antt =====
-- The size of a message as it is measured and as it is written.
use quic_keys.Common.{
  ℕ, ◌+◌, ◌<◌, Bool, true, false, [], ◌++◌, Option, none, some, ◌≡◌, refl, ◌∙◌, arith, Bytes, ◌==◌,
  if◌then◌else◌, length, length-append,
}
use quic_keys.Protobuf.{
  WireFormat, Header, Edge, Snapshot, serialize_header, serialize_hdr, serialize_edge,
  serialize_snapshot, header_size, measure_header, measure_hdr, measure_edge, measure_snapshot,
}

-- What protobuf documents of its sizes, for field numbers whose tag is one byte.
pub record IsMeasured (w : WireFormat) : Type 0 where
  pub uint32 :
      (field x : ℕ) → field < 16 → length (w.write_uint32 field x) ≡ w.uint32_size_plus_one x
  pub uint64 :
      (field x : ℕ) → field < 16 → length (w.write_uint64 field x) ≡ w.uint64_size_plus_one x
  pub bool : (field : ℕ) (b : Bool) → field < 16 → length (w.write_bool field b) ≡ 2
  pub bytes :
      (field : ℕ) (bs : Bytes) → field < 16 → length (w.write_bytes field bs) ≡ 1 + w.bytes_size bs
  pub message :
      (field size : ℕ) (body : Bytes)
      → field < 16
      → length body ≡ size
      → length (w.write_message field size body) ≡ 1 + w.message_size size

module _ (w : WireFormat) (ok : IsMeasured w) where
  length_field :
      (empty : Bool) (bs : Bytes) (n : ℕ)
      → length bs ≡ n
      → length (if empty then [] else bs) ≡ (if empty then 0 else n)
  length_field true bs n h = refl
  length_field false bs n h = h

  pub length-serialize_header : (h : Header) → length (serialize_header w h) ≡ header_size w h
  unfolding serialize_header header_size
  length-serialize_header h =
      let a = if h.version == 0 then [] else w.write_uint32 1 h.version in
      let b = if h.seq == 0 then [] else w.write_uint32 2 h.seq in
      let c = if h.t_ms == 0 then [] else w.write_uint64 3 h.t_ms in
      omega (
        arith,
        length-append a (b ++ (c ++ h.unknown_fields)),
        length-append b (c ++ h.unknown_fields),
        length-append c h.unknown_fields,
        length_field (h.version == 0) (w.write_uint32 1 h.version) _
            (ok.uint32 1 h.version (omega arith)),
        length_field (h.seq == 0) (w.write_uint32 2 h.seq) _ (ok.uint32 2 h.seq (omega arith)),
        length_field (h.t_ms == 0) (w.write_uint64 3 h.t_ms) _ (ok.uint64 3 h.t_ms (omega arith)),
      )

  length-measured_hdr :
      (h : Option Header) → length (serialize_hdr w (measure_hdr w h).1) ≡ (measure_hdr w h).0
  unfolding serialize_hdr measure_hdr measure_header
  length-measured_hdr none = refl
  length-measured_hdr (some h) =
      let measured = record h { cached_size = header_size w h } in
      let same : header_size w measured ≡ header_size w h = unfold header_size in refl in
      ok.message 1 (header_size w h) (serialize_header w measured) (omega arith)
        (length-serialize_header measured ∙ same)

  -- With writers whose sizes are as documented, an edge that `ByteSizeLong` measured is written to
  -- as many bytes as it said, its header included, whatever sizes were cached before.
  pub length-serialize_edge :
      (e : Edge)
      → let (size, measured) = measure_edge w e in length (serialize_edge w measured) ≡ size
  unfolding serialize_edge measure_edge
  length-serialize_edge e =
      let (n, hdr) = measure_hdr w e.hdr in
      let a = serialize_hdr w hdr in
      let b = if e.hid_usage == 0 then [] else w.write_uint32 2 e.hid_usage in
      let c = if e.is_down then w.write_bool 3 true else [] in
      let d = if e.modifiers == 0 then [] else w.write_uint32 4 e.modifiers in
      let third : length c ≡ (if e.is_down then 1 + 1 else 0) =
        ground (arith, ok.bool 3 true (omega arith)) in
      omega (
        arith,
        length-append a (b ++ (c ++ (d ++ e.unknown_fields))),
        length-append b (c ++ (d ++ e.unknown_fields)),
        length-append c (d ++ e.unknown_fields),
        length-append d e.unknown_fields,
        length-measured_hdr e.hdr,
        length_field (e.hid_usage == 0) (w.write_uint32 2 e.hid_usage) _
            (ok.uint32 2 e.hid_usage (omega arith)),
        third,
        length_field (e.modifiers == 0) (w.write_uint32 4 e.modifiers) _
            (ok.uint32 4 e.modifiers (omega arith)),
      )

  -- With writers whose sizes are as documented, a snapshot that `ByteSizeLong` measured is written
  -- to as many bytes as it said, its header included, whatever sizes were cached before.
  pub length-serialize_snapshot :
      (s : Snapshot)
      → let (size, measured) = measure_snapshot w s in length (serialize_snapshot w measured) ≡ size
  unfolding serialize_snapshot measure_snapshot
  length-serialize_snapshot s =
      let (n, hdr) = measure_hdr w s.hdr in
      let a = serialize_hdr w hdr in
      let b = if s.modifiers == 0 then [] else w.write_uint32 2 s.modifiers in
      let c = if length s.pressed_bitmap == 0 then [] else w.write_bytes 3 s.pressed_bitmap in
      omega (
        arith,
        length-append a (b ++ (c ++ s.unknown_fields)),
        length-append b (c ++ s.unknown_fields),
        length-append c s.unknown_fields,
        length-measured_hdr s.hdr,
        length_field (s.modifiers == 0) (w.write_uint32 2 s.modifiers) _
            (ok.uint32 2 s.modifiers (omega arith)),
        length_field (length s.pressed_bitmap == 0) (w.write_bytes 3 s.pressed_bitmap) _
            (ok.bytes 3 s.pressed_bitmap (omega arith)),
      )
