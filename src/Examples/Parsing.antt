-- ===== src/Examples/Parsing.antt =====
-- Reading the format of Examples/Messages, and messages read back.
use quic_keys.Common.{
  ℕ, zero, suc, ◌+◌, ◌-◌, ◌*◌, ◌/◌, ◌%◌, ◌^◌, ◌<◌, ◌≤◌, true, false, [], ◌∷◌, ◌++◌, append_assoc,
  none, some, Option, ◌≡◌, refl, ap, ◌∙◌, arith, Bytes, leb, ltb, ◌==◌, if◌then◌else◌, length, take,
  drop, take-append, drop-append, Bool-cases, if_keeps, inl, inr, length-append, length-drop,
}
use quic_keys.Protobuf.{
  Header, Edge, merge_edge, merge_snapshot, serialize_edge, serialize_snapshot, measure_edge,
  measure_snapshot, header_size,
}
use quic_keys.Protobuf.Parsing.{Parsed, WireReader, internal_parse_edge, internal_parse_snapshot}
use quic_keys.Protobuf.Parsing.ReadBack.{IsReadBack}
use quic_keys.Protobuf.Parsing.Messages.{FitsEdge, FitsSnapshot, parse-serialize}
use quic_keys.Protobuf.Parsing.Ending.{IsLater, IsLaterField, IsForward}
use quic_keys.Examples.Messages.{
  groups, varint, documented, documented-IsMeasured, press, picture, old_picture,
}

-- A varint of at most `fuel` groups.
ungroup : ℕ → Bytes → ℕ × Option Bytes
ungroup zero bs = (0, none)
ungroup (suc fuel) [] = (0, none)
ungroup (suc fuel) (b ∷ bs) =
    let (v, rest) = ungroup fuel bs in if ltb b 128 then (b, some bs) else (b - 128 + v * 128, rest)

-- What `suc fuel` groups hold.
capacity : ℕ → ℕ
capacity zero = 128
capacity (suc fuel) = 128 * capacity fuel

ungroup-groups :
    (fuel n : ℕ) (rest : Bytes)
    → n < capacity fuel
    → ungroup (suc fuel) (groups (suc fuel) n ++ rest) ≡ (n, some rest)
unfolding ungroup groups capacity
ungroup-groups zero n rest h = elim (Bool-cases (ltb n 128)) [
  | inl e ↦ rw (e, e) refl
  | inr e ↦ absurd (ground (arith, h, e))
]
ungroup-groups (suc fuel) n rest h = elim (Bool-cases (ltb n 128)) [
  | inl e ↦ rw (e, e) refl
  | inr e ↦
      let high : ltb (n % 128 + 128) 128 ≡ false = ground arith in
      let whole : n % 128 + 128 - 128 + n / 128 * 128 ≡ n = omega arith in
      rw (e, high) (rw (ungroup-groups fuel (n / 128) rest (omega (arith, h))) (rw whole refl))
]

read-varint : (n : ℕ) (rest : Bytes) → n < 2 ^ 64 → ungroup 10 (varint n ++ rest) ≡ (n, some rest)
read-varint n rest h = ungroup-groups 9 n rest (unfold capacity in omega (arith, h))

-- The bytes behind a length.
cut : ℕ × Option Bytes → Option (Bytes × Bytes)
cut (n, none) = none
cut (n, some q) = if leb n (length q) then some (take n q, drop n q) else none

delimited : Bytes → Option (Bytes × Bytes)
delimited bs = cut (ungroup 10 bs)

delimited-varint :
    (body rest : Bytes) (n : ℕ)
    → length body ≡ n
    → n < 2 ^ 31
    → delimited (varint n ++ (body ++ rest)) ≡ some (body, rest)
unfolding delimited cut
delimited-varint body rest n size short =
    let fits : leb n (length (body ++ rest)) ≡ true =
      ground (arith, size, length-append body rest) in
    ap cut (read-varint n (body ++ rest) (omega (arith, short)))
    ∙ rw (fits, take-append n body rest size, drop-append n body rest size) refl

string_of : Option (Bytes × Bytes) → Bytes × Option Bytes
string_of none = ([], none)
string_of (some (body, rest)) = (body, some rest)

-- The message has to end where its bytes do.
ended : Parsed Header → Bytes → Header × Option Bytes
ended parsed rest = (
  parsed.message,
  elim parsed.ptr [ none ↦ none | some left ↦ if parsed.last_tag == 0 then some rest else none ],
)

message_of :
    (Bytes → Header → Parsed Header) → Header → Option (Bytes × Bytes) → Header × Option Bytes
message_of parse h none = (h, none)
message_of parse h (some (body, rest)) = ended (parse body h) rest

ended_whole :
    (parsed : Parsed Header) (rest : Bytes)
    → parsed.ptr ≡ some []
    → parsed.last_tag ≡ 0
    → ended parsed rest ≡ (parsed.message, some rest)
unfolding ended
ended_whole parsed rest whole last = rw (whole, last) refl

abbrev reader : WireReader
reader = record {
  read_tag = λ bs. elim bs [ [] ↦ none | t ∷ rest ↦ some (t, rest) ];
  read_varint32 = λ bs. let (v, rest) = ungroup 10 bs in (v % 2 ^ 32, rest);
  read_varint64 = λ bs. let (v, rest) = ungroup 10 bs in (v % 2 ^ 64, rest);
  parse_string = λ bs. string_of (delimited bs);
  parse_message = λ parse h bs. message_of parse h (delimited bs);
  unknown_field_parse = λ tag bs.
      let (v, after) = ungroup 10 bs in
      elim after [ none ↦ none | some rest ↦ some (tag ∷ varint v, rest) ];
}

abbrev read_as : Option Bytes → ℕ → ℕ × Option Bytes
read_as rest v = (v, rest)

reader-IsReadBack : IsReadBack documented reader
unfolding string_of message_of
reader-IsReadBack = record {
  uint32 = λ field x rest h fits. (
    varint x ++ rest,
    refl,
    rw (read-varint x rest (omega (arith, fits))) (ap (read_as (some rest)) (omega (arith, fits))),
  );
  uint64 = λ field x rest h fits. (
    varint x ++ rest,
    refl,
    rw (read-varint x rest fits) (ap (read_as (some rest)) (omega (arith, fits))),
  );
  bool = λ field rest h. (1 ∷ rest, refl, unfold ungroup in refl);
  bytes = λ field bs rest h short. (
    varint (length bs) ++ (bs ++ rest),
    ap (λ q. some (field * 8 + 2, q)) (append_assoc (varint (length bs)) bs rest),
    ap string_of (delimited-varint bs rest (length bs) refl short),
  );
  message = λ parse field size body to rest h e short whole last. (
    varint size ++ (body ++ rest),
    ap (λ q. some (field * 8 + 2, q)) (append_assoc (varint size) body rest),
    ap (message_of parse to) (delimited-varint body rest size e short)
        ∙ ended_whole (parse body to) rest whole last,
  );
  some_tag = refl;
}

IsLater-tail : (b : ℕ) (bs : Bytes) (o : Option Bytes) → IsLater bs o → IsLater (b ∷ bs) o
unfolding IsLater
IsLater-tail b bs none h = tt
IsLater-tail b bs (some rest) h = omega (arith, h)

ungroup-IsLater : (fuel : ℕ) (bs : Bytes) → IsLater bs (ungroup fuel bs).1
unfolding ungroup IsLater
ungroup-IsLater zero bs = tt
ungroup-IsLater (suc fuel) [] = tt
ungroup-IsLater (suc fuel) (b ∷ bs) = elim (Bool-cases (ltb b 128)) [
  | inl e ↦ rw e (omega arith)
  | inr e ↦ rw e (IsLater-tail b bs (ungroup fuel bs).1 (ungroup-IsLater fuel bs))
]

cut-IsLater : (bs : Bytes) (n : ℕ) (o : Option Bytes) → IsLater bs o → IsLaterField bs (cut (n, o))
unfolding cut IsLater IsLaterField
cut-IsLater bs n none h = tt
cut-IsLater bs n (some q) h = elim (Bool-cases (leb n (length q))) [
  | inl e ↦ rw e (omega (arith, h, length-drop n q))
  | inr e ↦ rw e tt
]

delimited-IsLater : (bs : Bytes) → IsLaterField bs (delimited bs)
unfolding delimited
delimited-IsLater bs = cut-IsLater bs (ungroup 10 bs).0 (ungroup 10 bs).1 (ungroup-IsLater 10 bs)

string-IsLater :
    (bs : Bytes) (o : Option (Bytes × Bytes)) → IsLaterField bs o → IsLater bs (string_of o).1
unfolding IsLater IsLaterField string_of
string-IsLater bs none h = tt
string-IsLater bs (some (body, rest)) h = h

ended-IsLater :
    (ptr : Option Bytes) (last : ℕ) (bs rest : Bytes)
    → length rest ≤ length bs
    → IsLater bs (elim ptr as (λ x. Option Bytes) [
      | none ↦ none
      | some left ↦ if last == 0 then some rest else none
    ])
unfolding IsLater
ended-IsLater none last bs rest h = tt
ended-IsLater (some left) last bs rest h = if_keeps (IsLater bs) (last == 0) (some rest) none h tt

kept-IsLater :
    (tag : ℕ) (q : Bytes) (v : ℕ × Option Bytes)
    → IsLater q v.1
    → IsLaterField q (elim v.1 as (λ x. Option (Bytes × Bytes)) [
      | none ↦ none
      | some rest ↦ some (tag ∷ varint v.0, rest)
    ])
unfolding IsLater IsLaterField
kept-IsLater tag q (n, none) h = tt
kept-IsLater tag q (n, some rest) h = h

tag-IsShorter :
    (bs : Bytes) (tag : ℕ) (q : Bytes) → reader.read_tag bs ≡ some (tag, q) → length q < length bs
tag-IsShorter [] tag q h = absurd cc
tag-IsShorter (t ∷ rest) tag q h =
    let same : rest ≡ q = cc in omega (arith, ap (λ (x : Bytes). length x) same)

message-IsLater :
    (parse : Bytes → Header → Parsed Header) (to : Header) (bs : Bytes) (o : Option (Bytes × Bytes))
    → IsLaterField bs o
    → IsLater bs (message_of parse to o).1
unfolding IsLater IsLaterField message_of ended
message-IsLater parse to bs none h = tt
message-IsLater parse to bs (some (body, rest)) h =
    ended-IsLater (parse body to).ptr (parse body to).last_tag bs rest h

reader-IsForward : IsForward reader
reader-IsForward = record {
  read_tag = tag-IsShorter;
  read_varint32 = ungroup-IsLater 10;
  read_varint64 = ungroup-IsLater 10;
  parse_string = λ q. string-IsLater q (delimited q) (delimited-IsLater q);
  parse_message = λ parse h q. message-IsLater parse h q (delimited q) (delimited-IsLater q);
  unknown_field_parse = λ tag q. kept-IsLater tag q (ungroup 10 q) (ungroup-IsLater 10 q);
}

abbrev fresh_press : Edge
fresh_press = record {
  hdr = none;
  hid_usage = 300;
  is_down = true;
  modifiers = 2;
  unknown_fields = [];
  cached_size = 7;
}

picture-Fits : FitsSnapshot documented picture
unfolding header_size groups
picture-Fits = record {
  hdr = (
    record { version = omega arith; seq = omega arith; t_ms = omega arith; unknown_fields = refl },
    omega arith,
  );
  modifiers = omega arith;
  pressed_bitmap = omega arith;
  unknown_fields = refl;
}

fresh_press-Fits : FitsEdge documented fresh_press
fresh_press-Fits = record {
  hdr = tt;
  hid_usage = omega arith;
  modifiers = omega arith;
  unknown_fields = refl;
}

parse-serialize_example :
    (internal_parse_snapshot reader
        (serialize_snapshot documented (measure_snapshot documented picture).1)
        old_picture
      ≡ record { message = merge_snapshot old_picture picture; ptr = some []; last_tag = 0 })
    × (internal_parse_edge reader
          (serialize_edge documented (measure_edge documented fresh_press).1)
          press
        ≡ record { message = merge_edge press fresh_press; ptr = some []; last_tag = 0 })
parse-serialize_example =
    parse-serialize documented reader reader-IsReadBack documented-IsMeasured picture old_picture
      fresh_press press picture-Fits fresh_press-Fits

-- A usage of 300, a press, the modifiers 2, a field that is not known, and a header cut short.
abbrev wire : Bytes
wire = 16 ∷ 172 ∷ 2 ∷ 24 ∷ 1 ∷ 32 ∷ 2 ∷ 40 ∷ 1 ∷ 10 ∷ 9 ∷ []
