-- ===== src/Protobuf/Copies.antt =====
-- Copying a message.
use quic_keys.Common.{
  ℕ, Bool, true, false, [], ◌∷◌, Option, none, some, ◌≡◌, refl, arith, Bytes, ◌==◌, if◌then◌else◌,
  length,
}
use quic_keys.Protobuf.{
  WireFormat, Header, Edge, Snapshot, header_size, merged, merge_header, merge_hdr, merge_edge,
  merge_snapshot, clear_snapshot, clear_edge, copy_snapshot, copy_edge, measure_hdr, measure_header,
  measure_snapshot, measure_edge, new_header,
}

merged-zero : (x : ℕ) → merged 0 x ≡ x
merged-zero x = ground arith

merged-new_header : (h : Header) → merge_header new_header h ≡ record h { cached_size = 0 }
unfolding merge_header
merged-new_header h = λ i. record {
  version = merged-zero h.version i;
  seq = merged-zero h.seq i;
  t_ms = merged-zero h.t_ms i;
  unknown_fields = h.unknown_fields;
  cached_size = 0;
}

some_bytes : (bs : Bytes) → (if length bs == 0 then [] else bs) ≡ bs
some_bytes [] = refl
some_bytes (b ∷ bs) = let e : (length (b ∷ bs) == 0) ≡ false = ground arith in rw e

down_or_not : (b : Bool) → (if b then true else false) ≡ b
down_or_not true = refl
down_or_not false = refl

module _ (w : WireFormat) where
  measured_hdr : (h : Option Header) → measure_hdr w (merge_hdr none h) ≡ measure_hdr w h
  unfolding measure_hdr merge_hdr measure_header header_size
  measured_hdr none = refl
  measured_hdr (some h) = rw (merged-new_header h)

  -- A copy of a snapshot, once measured, is what the measured original is: nothing of the target is
  -- left.
  pub copy_snapshot-measured :
      (to from : Snapshot) → measure_snapshot w (copy_snapshot to from) ≡ measure_snapshot w from
  unfolding measure_snapshot copy_snapshot merge_snapshot clear_snapshot
  copy_snapshot-measured to from =
      rw (some_bytes from.pressed_bitmap, measured_hdr from.hdr, merged-zero from.modifiers)

  -- A copy of an edge, once measured, is what the measured original is: nothing of the target is left.
  pub copy_edge-measured :
      (to from : Edge) → measure_edge w (copy_edge to from) ≡ measure_edge w from
  unfolding measure_edge copy_edge merge_edge clear_edge
  copy_edge-measured to from = rw (
    down_or_not from.is_down,
    measured_hdr from.hdr,
    merged-zero from.modifiers,
    merged-zero from.hid_usage,
  )
