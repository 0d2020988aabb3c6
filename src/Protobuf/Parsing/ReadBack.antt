-- ===== src/Protobuf/Parsing/ReadBack.antt =====
-- The bytes that a message is written to, parsed into another message.
use quic_keys.Common.{
  ℕ, zero, suc, ◌+◌, ◌*◌, ◌<◌, ◌≤◌, ◌^◌, Bool, true, false, List, [], ◌∷◌, ◌++◌, append-nil, none,
  some, ◌≡◌, ◌⊎◌, inl, inr, refl, sym, ap, ◌∙◌, arith, Bytes, All, ◌==◌, if◌then◌else◌, length,
  length-append,
}
use quic_keys.Protobuf.{WireFormat, Header, merged, merge_header, serialize_header}
use quic_keys.Protobuf.Parsing.{
  Parsed, WireReader, RoundEnd, go_on, checked, parse_loop, header_round, internal_parse_header,
}

-- What follows a tag.
abbrev pub Tagged : WireReader → Bytes → ℕ → (Bytes → Type 0) → Type 0
Tagged r bs tag P = (q : Bytes) × (r.read_tag bs ≡ some (tag, q)) × P q

-- What protobuf documents of reading what it wrote: the tag of the field, then the value, whatever stands
-- behind it. A message is read by its parser from as many bytes as it has, and has to end with them.
pub record IsReadBack (w : WireFormat) (r : WireReader) : Type 0 where
  pub uint32 :
      (field x : ℕ) (rest : Bytes)
      → field < 16
      → x < 2 ^ 32
      → Tagged r
          (w.write_uint32 field x ++ rest)
          (field * 8)
          (λ q. r.read_varint32 q ≡ (x, some rest))
  pub uint64 :
      (field x : ℕ) (rest : Bytes)
      → field < 16
      → x < 2 ^ 64
      → Tagged r
          (w.write_uint64 field x ++ rest)
          (field * 8)
          (λ q. r.read_varint64 q ≡ (x, some rest))
  pub bool :
      (field : ℕ) (rest : Bytes)
      → field < 16
      → Tagged r
          (w.write_bool field true ++ rest)
          (field * 8)
          (λ q. r.read_varint64 q ≡ (1, some rest))
  pub bytes :
      (field : ℕ) (bs rest : Bytes)
      → field < 16
      → length bs < 2 ^ 31
      → Tagged r
          (w.write_bytes field bs ++ rest)
          (field * 8 + 2)
          (λ q. r.parse_string q ≡ (bs, some rest))
  pub message :
      (parse : Bytes → Header → Parsed Header) (field size : ℕ) (body : Bytes) (to : Header)
      (rest : Bytes)
      → field < 16
      → length body ≡ size
      → size < 2 ^ 31
      → (parse body to).ptr ≡ some []
      → (parse body to).last_tag ≡ 0
      → Tagged r
          (w.write_message field size body ++ rest)
          (field * 8 + 2)
          (λ q. r.parse_message parse to q ≡ ((parse body to).message, some rest))
  -- A tag takes a byte.
  pub some_tag : r.read_tag [] ≡ none

-- The bytes of one field, which may be none, and what the field does to a message.
pub record Segment {ℓ} (A : Type ℓ) : Type ℓ where
  pub bytes : Bytes
  pub effect : A → A

module _ {ℓ} {A : Type ℓ} (w : WireFormat) (r : WireReader) (ok : IsReadBack w r)
    (round : ℕ → Bytes → A → RoundEnd A) where
  -- One round of the loop takes the bytes.
  abbrev pub Takes : Segment A → Type ℓ
  Takes s =
      (rest : Bytes) (a : A)
      → (tag : ℕ) × (q : Bytes) × (r.read_tag (s.bytes ++ rest) ≡ some (tag, q))
        × (round tag q a ≡ go_on (s.effect a) rest)

  abbrev pub Reads : Segment A → Type ℓ
  Reads s = ((s.bytes ≡ []) × ((a : A) → s.effect a ≡ a)) ⊎ Takes s

  unfoldable pub effects : List (Segment A) → A → A
  effects [] a = a
  effects (s ∷ ss) a = effects ss (s.effect a)

  abbrev pub bytes_of : List (Segment A) → Bytes
  bytes_of [] = []
  bytes_of (s ∷ ss) = s.bytes ++ bytes_of ss

  takes_bytes :
      (bs : Bytes) (tag : ℕ) (q : Bytes) → r.read_tag (bs ++ []) ≡ some (tag, q) → 0 < length bs
  takes_bytes [] tag q read = absurd (ground (arith, read, ok.some_tag))
  takes_bytes (b ∷ bs) tag q read = omega arith

  round-loop :
      (bs rest : Bytes) (fuel tag : ℕ) (q : Bytes) (a a' : A)
      → 0 < length bs
      → r.read_tag (bs ++ rest) ≡ some (tag, q)
      → round tag q a ≡ go_on a' rest
      → length (bs ++ rest) ≤ fuel
      → (f : ℕ) × (length rest ≤ f)
        × (parse_loop r round fuel (bs ++ rest) a ≡ parse_loop r round f rest a')
  unfolding parse_loop
  round-loop [] rest fuel tag q a a' some_byte read next enough = absurd (omega arith)
  round-loop (b ∷ bs) rest zero tag q a a' some_byte read next enough = absurd (omega arith)
  round-loop (b ∷ bs) rest (suc f) tag q a a' some_byte read next enough =
      (f, omega (arith, length-append bs rest), rw read (rw next refl))

  Takes-loop :
      (s : Segment A) (rest : Bytes) (fuel : ℕ) (a : A)
      → Takes s
      → length (s.bytes ++ rest) ≤ fuel
      → (f : ℕ) × (length rest ≤ f)
        × (parse_loop r round fuel (s.bytes ++ rest) a ≡ parse_loop r round f rest (s.effect a))
  Takes-loop s rest fuel a takes enough =
      let (tag, q, read, next) = takes rest a in
      let (tag', q', read', next') = takes [] a in
      round-loop s.bytes rest fuel tag q a (s.effect a) (takes_bytes s.bytes tag' q' read') read
        next enough

  pub loop-effects :
      (ss : List (Segment A)) (fuel : ℕ) (a : A)
      → All Reads ss
      → length (bytes_of ss) ≤ fuel
      → parse_loop r round fuel (bytes_of ss) a
        ≡ record { message = effects ss a; ptr = some []; last_tag = 0 }
  unfolding effects parse_loop
  loop-effects [] fuel a h enough = refl
  loop-effects (s ∷ ss) fuel a (inl (e, same), hs) enough =
      rw (e, same a) (loop-effects ss fuel a hs (rw e at enough))
  loop-effects (s ∷ ss) fuel a (inr takes, hs) enough =
      let (f, left, step) = Takes-loop s (bytes_of ss) fuel a takes enough in
      step ∙ loop-effects ss f (s.effect a) hs left

  -- A field that is written unless `absent`: it does what `merge` says.
  pub optional-Reads :
      (absent : Bool) (s : Segment A) (merge : A → A)
      → Takes s
      → (absent ≡ true → (a : A) → merge a ≡ a)
      → (absent ≡ false → (a : A) → merge a ≡ s.effect a)
      → Reads (record { bytes = if absent then [] else s.bytes; effect = merge })
  optional-Reads true s merge takes skip set = inl (refl, skip refl)
  optional-Reads false s merge takes skip set = inr (λ rest a.
      let (tag, q, read, next) = takes rest a in
      (tag, q, read, next ∙ ap (λ m. go_on m rest) (sym (set refl a))))

-- A header without unknown fields whose numbers fit their types.
pub record Fits (h : Header) : Type 0 where
  pub version : h.version < 2 ^ 32
  pub seq : h.seq < 2 ^ 32
  pub t_ms : h.t_ms < 2 ^ 64
  pub unknown_fields : h.unknown_fields ≡ []

module _ (w : WireFormat) (r : WireReader) (ok : IsReadBack w r) where
  header_segments : Header → List (Segment Header)
  header_segments h =
      record {
        bytes = if h.version == 0 then [] else w.write_uint32 1 h.version;
        effect = λ to. record to { version = merged to.version h.version };
      }
      ∷ record {
        bytes = if h.seq == 0 then [] else w.write_uint32 2 h.seq;
        effect = λ to. record to { seq = merged to.seq h.seq };
      }
      ∷ record {
        bytes = if h.t_ms == 0 then [] else w.write_uint64 3 h.t_ms;
        effect = λ to. record to { t_ms = merged to.t_ms h.t_ms };
      }
      ∷ []

  header-Reads : (h : Header) → Fits h → All (Reads w r ok (header_round r)) (header_segments h)
  unfolding header_segments header_round checked
  header-Reads h fits = (
    optional-Reads w r ok (header_round r) (h.version == 0)
        (record {
          bytes = w.write_uint32 1 h.version;
          effect = λ to. record to { version = h.version };
        })
        _
        (λ rest a.
          let (q, read, value) = ok.uint32 1 h.version rest (omega arith) fits.version in
          (8, q, read, rw value refl))
        (λ e a. rw e refl) (λ e a. rw e refl),
    (
      optional-Reads w r ok (header_round r) (h.seq == 0)
          (record { bytes = w.write_uint32 2 h.seq; effect = λ to. record to { seq = h.seq } }) _
          (λ rest a.
            let (q, read, value) = ok.uint32 2 h.seq rest (omega arith) fits.seq in
            (16, q, read, rw value refl))
          (λ e a. rw e refl) (λ e a. rw e refl),
      (
        optional-Reads w r ok (header_round r) (h.t_ms == 0)
            (record { bytes = w.write_uint64 3 h.t_ms; effect = λ to. record to { t_ms = h.t_ms } })
            _
            (λ rest a.
              let (q, read, value) = ok.uint64 3 h.t_ms rest (omega arith) fits.t_ms in
              (24, q, read, rw value refl))
            (λ e a. rw e refl) (λ e a. rw e refl),
        tt,
      ),
    ),
  )

  pub parse-header :
      (h to : Header)
      → Fits h
      → internal_parse_header r (serialize_header w h) to
        ≡ record { message = merge_header to h; ptr = some []; last_tag = 0 }
  unfolding internal_parse_header serialize_header merge_header header_segments effects
  parse-header h to fits = rw fits.unknown_fields (
      loop-effects w r ok (header_round r) (header_segments h)
        (length (bytes_of w r ok (header_round r) (header_segments h))) to (header-Reads h fits)
        (omega arith)
      ∙ rw append-nil refl)
