-- ===== src/Protobuf/Parsing.antt =====
-- `_InternalParse` of the three messages in daemon/include/remoter.pb.cc. A pointer into the input is the
-- bytes from it up to the limit, so that `ctx->Done` holds where none are left, and `none` is a null
-- pointer. What the protobuf library reads is in `WireReader`.
pub mod ReadBack
pub mod Messages
pub mod Ending
use quic_keys.Common.{
  Bool, ℕ, zero, suc, ◌/◌, ◌%◌, ◌&&◌, ◌||◌, not, [], ◌∷◌, ◌++◌, Option, none, some, Bytes, ◌==◌,
  if◌then◌else◌, length,
}
use quic_keys.Protobuf.{Header, Edge, Snapshot, new_header}

-- What `_InternalParse` leaves: the message, the pointer that it returns, and the tag that `SetLastTag`
-- kept, 0 at the end of the input.
pub record Parsed {ℓ} (A : Type ℓ) : Type ℓ where
  pub message : A
  pub ptr : Option Bytes
  pub last_tag : ℕ

-- `ReadTag`, which gives the tag 0 with a null pointer (`none`), `ReadVarint32`, `ReadVarint64`,
-- `InlineGreedyStringParser`, `ParseContext::ParseMessage` for the parser of a header, and
-- `UnknownFieldParse`, with the bytes that it adds to the unknown fields.
pub record WireReader : Type 0 where
  pub read_tag : Bytes → Option (ℕ × Bytes)
  pub read_varint32 : Bytes → ℕ × Option Bytes
  pub read_varint64 : Bytes → ℕ × Option Bytes
  pub parse_string : Bytes → Bytes × Option Bytes
  pub parse_message : (Bytes → Header → Parsed Header) → Header → Bytes → Header × Option Bytes
  pub unknown_field_parse : ℕ → Bytes → Option (Bytes × Bytes)

-- How a round of the loop ends.
pub data RoundEnd {ℓ} (A : Type ℓ) : Type ℓ where
  go_on : A → Bytes → RoundEnd A
  failure : A → RoundEnd A
  message_done : A → Bytes → ℕ → RoundEnd A

-- `CHK_(ptr)` and `continue`
checked {ℓ} : {A : Type ℓ} → A → Option Bytes → RoundEnd A
checked a none = failure a
checked a (some ptr) = go_on a ptr

-- `case number:` and the test of the tag's low byte
abbrev is_field : ℕ → ℕ → ℕ → Bool
is_field number low tag = tag / 8 == number && tag % 256 == low

-- `_internal_mutable_hdr()`
mutable_hdr : Option Header → Header
mutable_hdr none = new_header
mutable_hdr (some h) = h

module _ (r : WireReader) where
  -- Behind `handle_unusual`; `add` keeps bytes among the unknown fields.
  unusual {ℓ} : {A : Type ℓ} → (Bytes → A) → A → ℕ → Bytes → RoundEnd A
  unusual add a tag ptr =
      if tag == 0 || tag % 8 == 4
      then message_done a ptr tag
      else elim (r.unknown_field_parse tag ptr) [
        | none ↦ failure a
        | some (bytes, rest) ↦ go_on (add bytes) rest
      ]

  -- `while (!ctx->Done(&ptr))`, on fuel: a round passes at least the tag.
  pub parse_loop {ℓ} : {A : Type ℓ} → (ℕ → Bytes → A → RoundEnd A) → ℕ → Bytes → A → Parsed A
  parse_loop round fuel [] a = record { message = a; ptr = some []; last_tag = 0 }
  parse_loop round zero (b ∷ bs) a = record { message = a; ptr = none; last_tag = 0 }
  parse_loop round (suc fuel) (b ∷ bs) a = elim (r.read_tag (b ∷ bs)) [
    | none ↦ record { message = a; ptr = none; last_tag = 0 }
    | some (tag, ptr) ↦ elim (round tag ptr a) [
      | go_on a' rest ↦ parse_loop round fuel rest a'
      | failure a' ↦ record { message = a'; ptr = none; last_tag = 0 }
      | message_done a' rest last ↦ record { message = a'; ptr = some rest; last_tag = last }
    ]
  ]

  pub header_round : ℕ → Bytes → Header → RoundEnd Header
  header_round tag ptr h =
      let (v, after) = r.read_varint32 ptr in
      let (t, after_time) = r.read_varint64 ptr in
      if is_field 1 8 tag
      then checked (record h { version = v }) after
      else if is_field 2 16 tag
      then checked (record h { seq = v }) after
      else if is_field 3 24 tag
      then checked (record h { t_ms = t }) after_time
      else unusual (λ bytes. record h { unknown_fields = h.unknown_fields ++ bytes }) h tag ptr

  pub internal_parse_header : Bytes → Header → Parsed Header
  internal_parse_header ptr h = parse_loop header_round (length ptr) ptr h

  pub edge_round : ℕ → Bytes → Edge → RoundEnd Edge
  edge_round tag ptr e =
      let (h, after_hdr) = r.parse_message internal_parse_header (mutable_hdr e.hdr) ptr in
      let (v, after) = r.read_varint32 ptr in
      let (b, after_bool) = r.read_varint64 ptr in
      if is_field 1 10 tag
      then checked (record e { hdr = some h }) after_hdr
      else if is_field 2 16 tag
      then checked (record e { hid_usage = v }) after
      else if is_field 3 24 tag
      then checked (record e { is_down = not (b == 0) }) after_bool
      else if is_field 4 32 tag
      then checked (record e { modifiers = v }) after
      else unusual (λ bytes. record e { unknown_fields = e.unknown_fields ++ bytes }) e tag ptr

  pub internal_parse_edge : Bytes → Edge → Parsed Edge
  internal_parse_edge ptr e = parse_loop edge_round (length ptr) ptr e

  pub snapshot_fields : ℕ → Bytes → Snapshot → RoundEnd Snapshot
  snapshot_fields tag ptr s =
      let (h, after_hdr) = r.parse_message internal_parse_header (mutable_hdr s.hdr) ptr in
      let (v, after) = r.read_varint32 ptr in
      let (str, after_str) = r.parse_string ptr in
      if is_field 1 10 tag
      then checked (record s { hdr = some h }) after_hdr
      else if is_field 2 16 tag
      then checked (record s { modifiers = v }) after
      else if is_field 3 26 tag
      then checked (record s { pressed_bitmap = str }) after_str
      else unusual (λ bytes. record s { unknown_fields = s.unknown_fields ++ bytes }) s tag ptr

  pub internal_parse_snapshot : Bytes → Snapshot → Parsed Snapshot
  internal_parse_snapshot ptr s = parse_loop snapshot_fields (length ptr) ptr s
