-- ===== src/Protobuf/Parsing/Messages.antt =====
-- The bytes of an edge and of a snapshot, with their headers, parsed into another message.
use quic_keys.Common.{
  ◌<◌, ◌^◌, Bool, true, false, List, [], ◌∷◌, ◌++◌, append-nil, Option, none, some, ◌≡◌, inl, inr,
  refl, ap, ◌∙◌, arith, Bytes, All, ◌==◌, if◌then◌else◌, length,
}
use quic_keys.Protobuf.{
  WireFormat, Header, Edge, Snapshot, merged, merge_header, merge_hdr, merge_edge, merge_snapshot,
  serialize_header, serialize_hdr, serialize_edge, serialize_snapshot, header_size, measure_header,
  measure_hdr, measure_edge, measure_snapshot,
}
use quic_keys.Protobuf.Sizes.{IsMeasured, length-serialize_header}
use quic_keys.Protobuf.Parsing.{
  WireReader, go_on, checked, internal_parse_header, mutable_hdr, edge_round, internal_parse_edge,
  snapshot_fields, internal_parse_snapshot,
}
use quic_keys.Protobuf.Parsing.ReadBack.{
  IsReadBack, Segment, Fits, Reads, bytes_of, effects, loop-effects, optional-Reads, parse-header,
}

module _ (w : WireFormat) where
  -- A header that fits and is not too long for a message.
  abbrev pub FitsHdr : Option Header → Type 0
  FitsHdr none = Unit {0}
  FitsHdr (some h) = Fits h × (header_size w h < 2 ^ 31)

  -- A snapshot without unknown fields whose header fits.
  pub record FitsSnapshot (s : Snapshot) : Type 0 where
    pub hdr : FitsHdr s.hdr
    pub modifiers : s.modifiers < 2 ^ 32
    pub pressed_bitmap : length s.pressed_bitmap < 2 ^ 31
    pub unknown_fields : s.unknown_fields ≡ []

  -- An edge without unknown fields whose header fits.
  pub record FitsEdge (e : Edge) : Type 0 where
    pub hdr : FitsHdr e.hdr
    pub hid_usage : e.hid_usage < 2 ^ 32
    pub modifiers : e.modifiers < 2 ^ 32
    pub unknown_fields : e.unknown_fields ≡ []

module _ (w : WireFormat) (r : WireReader) (ok : IsReadBack w r) (sized : IsMeasured w) where
  abbrev measured : Header → Header
  measured h = record h { cached_size = header_size w h }

  serialize-measured : (h : Header) → serialize_header w (measured h) ≡ serialize_header w h
  unfolding serialize_header
  serialize-measured h = refl

  -- A header as a field is merged into the one that is there.
  hdr-read :
      (h : Header) (to : Option Header) (rest : Bytes)
      → FitsHdr w (some h)
      → (q : Bytes) × (r.read_tag (serialize_hdr w (measure_hdr w (some h)).1 ++ rest)
          ≡ some (10, q))
        × (r.parse_message (internal_parse_header r) (mutable_hdr to) q
            ≡ (merge_header (mutable_hdr to) h, some rest))
  unfolding serialize_hdr measure_hdr measure_header
  hdr-read h to rest (fits, short) =
      let size =
        ap (λ (bs : Bytes). length bs) (serialize-measured h) ∙ length-serialize_header w sized h in
      let parsed =
        ap (λ bs. internal_parse_header r bs (mutable_hdr to)) (serialize-measured h)
        ∙ parse-header w r ok h (mutable_hdr to) fits in
      let (q, read, value) =
        ok.message (internal_parse_header r) 1 (header_size w h) (serialize_header w (measured h))
          (mutable_hdr to) rest (omega arith) size short (rw parsed refl) (rw parsed refl) in
      (q, read, value ∙ rw parsed refl)

  mutable-merge :
      (to : Option Header) (h : Header)
      → some (merge_header (mutable_hdr to) h) ≡ merge_hdr to (some h)
  unfolding mutable_hdr merge_hdr
  mutable-merge none h = refl
  mutable-merge (some to) h = refl

  snapshot_hdr-Reads :
      (from : Option Header)
      → FitsHdr w from
      → Reads w r ok (snapshot_fields r) (record {
        bytes = serialize_hdr w (measure_hdr w from).1;
        effect = λ to. record to { hdr = merge_hdr to.hdr from };
      })
  unfolding serialize_hdr measure_hdr merge_hdr snapshot_fields checked
  snapshot_hdr-Reads none fits = inl (refl, λ a. refl)
  snapshot_hdr-Reads (some h) fits = inr (λ rest a.
      let (q, read, value) = hdr-read h a.hdr rest fits in
      (10, q, read, rw value (ap (λ m. go_on (record a { hdr = m }) rest) (mutable-merge a.hdr h))))

  snapshot_segments : Snapshot → List (Segment Snapshot)
  snapshot_segments s =
      record {
        bytes = serialize_hdr w (measure_hdr w s.hdr).1;
        effect = λ to. record to { hdr = merge_hdr to.hdr s.hdr };
      }
      ∷ record {
        bytes = if s.modifiers == 0 then [] else w.write_uint32 2 s.modifiers;
        effect = λ to. record to { modifiers = merged to.modifiers s.modifiers };
      }
      ∷ record {
        bytes = if length s.pressed_bitmap == 0 then [] else w.write_bytes 3 s.pressed_bitmap;
        effect = λ to. record to {
          pressed_bitmap =
              if length s.pressed_bitmap == 0 then to.pressed_bitmap else s.pressed_bitmap;
        };
      }
      ∷ []

  snapshot-Reads :
      (s : Snapshot)
      → FitsSnapshot w s
      → All (Reads w r ok (snapshot_fields r)) (snapshot_segments s)
  unfolding snapshot_segments snapshot_fields checked
  snapshot-Reads s fits = (
    snapshot_hdr-Reads s.hdr fits.hdr,
    (
      optional-Reads w r ok (snapshot_fields r) (s.modifiers == 0)
          (record {
            bytes = w.write_uint32 2 s.modifiers;
            effect = λ to. record to { modifiers = s.modifiers };
          })
          _
          (λ rest a.
            let (q, read, value) = ok.uint32 2 s.modifiers rest (omega arith) fits.modifiers in
            (16, q, read, rw value refl))
          (λ e a. rw e refl) (λ e a. rw e refl),
      (
        optional-Reads w r ok (snapshot_fields r) (length s.pressed_bitmap == 0)
            (record {
              bytes = w.write_bytes 3 s.pressed_bitmap;
              effect = λ to. record to { pressed_bitmap = s.pressed_bitmap };
            })
            _
            (λ rest a.
              let (q, read, value) =
                ok.bytes 3 s.pressed_bitmap rest (omega arith) fits.pressed_bitmap in
              (26, q, read, rw value refl))
            (λ e a. rw e refl) (λ e a. rw e refl),
        tt,
      ),
    ),
  )

  parse-serialize_snapshot :
      (s to : Snapshot)
      → FitsSnapshot w s
      → internal_parse_snapshot r (serialize_snapshot w (measure_snapshot w s).1) to
        ≡ record { message = merge_snapshot to s; ptr = some []; last_tag = 0 }
  unfolding internal_parse_snapshot serialize_snapshot measure_snapshot merge_snapshot
      snapshot_segments
  parse-serialize_snapshot s to fits = rw fits.unknown_fields (
      loop-effects w r ok (snapshot_fields r) (snapshot_segments s)
        (length (bytes_of w r ok (snapshot_fields r) (snapshot_segments s))) to
        (snapshot-Reads s fits) (omega arith)
      ∙ unfold effects in rw append-nil refl)

  edge_hdr-Reads :
      (from : Option Header)
      → FitsHdr w from
      → Reads w r ok (edge_round r) (record {
        bytes = serialize_hdr w (measure_hdr w from).1;
        effect = λ to. record to { hdr = merge_hdr to.hdr from };
      })
  unfolding serialize_hdr measure_hdr merge_hdr edge_round checked
  edge_hdr-Reads none fits = inl (refl, λ a. refl)
  edge_hdr-Reads (some h) fits = inr (λ rest a.
      let (q, read, value) = hdr-read h a.hdr rest fits in
      (10, q, read, rw value (ap (λ m. go_on (record a { hdr = m }) rest) (mutable-merge a.hdr h))))

  is_down-Reads :
      (b : Bool)
      → Reads w r ok (edge_round r) (record {
        bytes = if b then w.write_bool 3 true else [];
        effect = λ to. record to { is_down = if b then true else to.is_down };
      })
  unfolding edge_round checked
  is_down-Reads true = inr (λ rest a.
      let (q, read, value) = ok.bool 3 rest (omega arith) in (24, q, read, rw value refl))
  is_down-Reads false = inl (refl, λ a. refl)

  edge_segments : Edge → List (Segment Edge)
  edge_segments e =
      record {
        bytes = serialize_hdr w (measure_hdr w e.hdr).1;
        effect = λ to. record to { hdr = merge_hdr to.hdr e.hdr };
      }
      ∷ record {
        bytes = if e.hid_usage == 0 then [] else w.write_uint32 2 e.hid_usage;
        effect = λ to. record to { hid_usage = merged to.hid_usage e.hid_usage };
      }
      ∷ record {
        bytes = if e.is_down then w.write_bool 3 true else [];
        effect = λ to. record to { is_down = if e.is_down then true else to.is_down };
      }
      ∷ record {
        bytes = if e.modifiers == 0 then [] else w.write_uint32 4 e.modifiers;
        effect = λ to. record to { modifiers = merged to.modifiers e.modifiers };
      }
      ∷ []

  edge-Reads : (e : Edge) → FitsEdge w e → All (Reads w r ok (edge_round r)) (edge_segments e)
  unfolding edge_segments edge_round checked
  edge-Reads e fits = (
    edge_hdr-Reads e.hdr fits.hdr,
    (
      optional-Reads w r ok (edge_round r) (e.hid_usage == 0)
          (record {
            bytes = w.write_uint32 2 e.hid_usage;
            effect = λ to. record to { hid_usage = e.hid_usage };
          })
          _
          (λ rest a.
            let (q, read, value) = ok.uint32 2 e.hid_usage rest (omega arith) fits.hid_usage in
            (16, q, read, rw value refl))
          (λ z a. rw z refl) (λ z a. rw z refl),
      (
        is_down-Reads e.is_down,
        (
          optional-Reads w r ok (edge_round r) (e.modifiers == 0)
              (record {
                bytes = w.write_uint32 4 e.modifiers;
                effect = λ to. record to { modifiers = e.modifiers };
              })
              _
              (λ rest a.
                let (q, read, value) = ok.uint32 4 e.modifiers rest (omega arith) fits.modifiers in
                (32, q, read, rw value refl))
              (λ z a. rw z refl) (λ z a. rw z refl),
          tt,
        ),
      ),
    ),
  )

  parse-serialize_edge :
      (e to : Edge)
      → FitsEdge w e
      → internal_parse_edge r (serialize_edge w (measure_edge w e).1) to
        ≡ record { message = merge_edge to e; ptr = some []; last_tag = 0 }
  unfolding internal_parse_edge serialize_edge measure_edge merge_edge edge_segments
  parse-serialize_edge e to fits = rw fits.unknown_fields (
      loop-effects w r ok (edge_round r) (edge_segments e)
        (length (bytes_of w r ok (edge_round r) (edge_segments e))) to (edge-Reads e fits)
        (omega arith)
      ∙ unfold effects in rw append-nil refl)

  -- Parsing the bytes that a measured message is written to, into any other message of its kind, is merging
  -- it into that one, for a snapshot as for an edge: all bytes are read and nothing is refused. The messages
  -- have no unknown fields, their numbers fit their types, and headers and bitmaps have less than 2 ^ 31
  -- bytes; the library reads back what it writes, in the sizes that it computes.
  pub parse-serialize :
      (s s' : Snapshot) (e e' : Edge)
      → FitsSnapshot w s
      → FitsEdge w e
      → (internal_parse_snapshot r (serialize_snapshot w (measure_snapshot w s).1) s'
          ≡ record { message = merge_snapshot s' s; ptr = some []; last_tag = 0 })
        × (internal_parse_edge r (serialize_edge w (measure_edge w e).1) e'
            ≡ record { message = merge_edge e' e; ptr = some []; last_tag = 0 })
  parse-serialize s s' e e' fits_s fits_e =
      (parse-serialize_snapshot s s' fits_s, parse-serialize_edge e e' fits_e)
