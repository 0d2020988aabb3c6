-- ===== src/Protobuf/Parsing/Ending.antt =====
-- The loops of `_InternalParse` come to an end on every input.
use quic_keys.Common.{
  ℕ, zero, suc, ◌≤◌, ◌<◌, ◌==◌, ◌%◌, ◌||◌, [], ◌∷◌, Option, none, some, ◌≡◌, refl, arith, Bytes,
  length, if_keeps,
}
use quic_keys.Protobuf.{Header, Edge, Snapshot}
use quic_keys.Protobuf.Parsing.{
  Parsed, is_field, WireReader, RoundEnd, go_on, failure, message_done, checked, unusual,
  parse_loop, mutable_hdr, header_round, internal_parse_header, edge_round, internal_parse_edge,
  snapshot_fields, internal_parse_snapshot,
}

-- A pointer that is not null stands no further from the limit.
unfoldable pub IsLater : Bytes → Option Bytes → Type 0
IsLater q none = Unit {0}
IsLater q (some rest) = length rest ≤ length q

unfoldable pub IsLaterField : Bytes → Option (Bytes × Bytes) → Type 0
IsLaterField q none = Unit {0}
IsLaterField q (some (bytes, rest)) = length rest ≤ length q

-- What protobuf documents of its readers: a tag takes at least one byte, and nothing is read twice.
pub record IsForward (r : WireReader) : Type 0 where
  pub read_tag :
      (bs : Bytes) (tag : ℕ) (q : Bytes) → r.read_tag bs ≡ some (tag, q) → length q < length bs
  pub read_varint32 : (q : Bytes) → IsLater q (r.read_varint32 q).1
  pub read_varint64 : (q : Bytes) → IsLater q (r.read_varint64 q).1
  pub parse_string : (q : Bytes) → IsLater q (r.parse_string q).1
  pub parse_message :
      (parse : Bytes → Header → Parsed Header) (h : Header) (q : Bytes)
      → IsLater q (r.parse_message parse h q).1
  pub unknown_field_parse : (tag : ℕ) (q : Bytes) → IsLaterField q (r.unknown_field_parse tag q)

-- A round that goes on does so from no earlier.
GoesOn {ℓ} : {A : Type ℓ} → Bytes → RoundEnd A → Type 0
GoesOn q (go_on a rest) = length rest ≤ length q
GoesOn q (failure a) = Unit {0}
GoesOn q (message_done a rest last) = Unit {0}

module _ (r : WireReader) (forward : IsForward r) where
  module _ {ℓ} {A : Type ℓ} (round : ℕ → Bytes → A → RoundEnd A)
      (on : (tag : ℕ) (q : Bytes) (a : A) → GoesOn q (round tag q a)) where
    -- The loop on two amounts of fuel, from any later pointer.
    abbrev Same : ℕ → ℕ → Type ℓ
    Same f g =
        (bs : Bytes) (a : A)
        → length bs ≤ f
        → length bs ≤ g
        → parse_loop r round f bs a ≡ parse_loop r round g bs a

    Same-round :
        (f g : ℕ) (b : ℕ) (bs q : Bytes) (a : A) (tag : ℕ) (m : RoundEnd A)
        → Same f g
        → r.read_tag (b ∷ bs) ≡ some (tag, q)
        → round tag q a ≡ m
        → GoesOn q m
        → length q ≤ f
        → length q ≤ g
        → parse_loop r round (suc f) (b ∷ bs) a ≡ parse_loop r round (suc g) (b ∷ bs) a
    unfolding parse_loop GoesOn
    Same-round f g b bs q a tag (go_on a' rest) same read eq later hf hg =
        rw (read, parse_loop) (rw eq (same rest a' (omega arith) (omega arith)))
    Same-round f g b bs q a tag (failure a') same read eq later hf hg =
        rw (read, parse_loop) (rw eq refl)
    Same-round f g b bs q a tag (message_done a' rest last) same read eq later hf hg =
        rw (read, parse_loop) (rw eq refl)

    Same-tag :
        (f g : ℕ) (b : ℕ) (bs : Bytes) (a : A) (o : Option (ℕ × Bytes))
        → Same f g
        → r.read_tag (b ∷ bs) ≡ o
        → length bs ≤ f
        → length bs ≤ g
        → parse_loop r round (suc f) (b ∷ bs) a ≡ parse_loop r round (suc g) (b ∷ bs) a
    unfolding parse_loop
    Same-tag f g b bs a none same read hf hg = rw (read, parse_loop) refl
    Same-tag f g b bs a (some (tag, q)) same read hf hg =
        let shorter : length q < length (b ∷ bs) = forward.read_tag (b ∷ bs) tag q read in
        Same-round f g b bs q a tag (round tag q a) same read refl (on tag q a) (omega arith)
          (omega arith)

    loop-fuel : (f g : ℕ) → Same f g
    unfolding parse_loop
    loop-fuel f g [] a hf hg = refl
    loop-fuel zero g (b ∷ bs) a hf hg = absurd (omega arith)
    loop-fuel (suc f) zero (b ∷ bs) a hf hg = absurd (omega arith)
    loop-fuel (suc f) (suc g) (b ∷ bs) a hf hg =
        Same-tag f g b bs a (r.read_tag (b ∷ bs)) (loop-fuel f g) refl (omega arith) (omega arith)

  GoesOn-checked {ℓ} :
      {A : Type ℓ} (q : Bytes) (a : A) (o : Option Bytes) → IsLater q o → GoesOn q (checked a o)
  unfolding checked GoesOn IsLater
  GoesOn-checked q a none h = tt
  GoesOn-checked q a (some rest) h = h

  GoesOn-unknown {ℓ} :
      {A : Type ℓ} (add : Bytes → A) (a : A) (q : Bytes) (o : Option (Bytes × Bytes))
      → IsLaterField q o
      → GoesOn q (elim o as (λ x. RoundEnd A) [
        | none ↦ failure a
        | some (bytes, rest) ↦ go_on (add bytes) rest
      ])
  unfolding GoesOn IsLaterField
  GoesOn-unknown add a q none h = tt
  GoesOn-unknown add a q (some (bytes, rest)) h = h

  GoesOn-unusual {ℓ} :
      {A : Type ℓ} (add : Bytes → A) (a : A) (tag : ℕ) (q : Bytes)
      → GoesOn q (unusual r add a tag q)
  unfolding unusual GoesOn
  GoesOn-unusual add a tag q =
      if_keeps (GoesOn q) (tag == 0 || tag % 8 == 4) (message_done a q tag) _ tt
        (GoesOn-unknown add a q (r.unknown_field_parse tag q) (forward.unknown_field_parse tag q))

  -- The fields of the three messages.
  header-GoesOn : (tag : ℕ) (q : Bytes) (h : Header) → GoesOn q (header_round r tag q h)
  unfolding header_round
  header-GoesOn tag q h =
      if_keeps (GoesOn q) (is_field 1 8 tag) _ _ (GoesOn-checked q _ _ (forward.read_varint32 q)) (
        if_keeps (GoesOn q) (is_field 2 16 tag) _ _ (GoesOn-checked q _ _ (forward.read_varint32 q))
          (if_keeps (GoesOn q) (is_field 3 24 tag) _ _
            (GoesOn-checked q _ _ (forward.read_varint64 q)) (GoesOn-unusual _ h tag q)))

  edge-GoesOn : (tag : ℕ) (q : Bytes) (e : Edge) → GoesOn q (edge_round r tag q e)
  unfolding edge_round
  edge-GoesOn tag q e =
      if_keeps (GoesOn q) (is_field 1 10 tag) _ _
        (GoesOn-checked q _ _
          (forward.parse_message (internal_parse_header r) (mutable_hdr e.hdr) q))
        (if_keeps (GoesOn q) (is_field 2 16 tag) _ _
          (GoesOn-checked q _ _ (forward.read_varint32 q))
          (if_keeps (GoesOn q) (is_field 3 24 tag) _ _
            (GoesOn-checked q _ _ (forward.read_varint64 q))
            (if_keeps (GoesOn q) (is_field 4 32 tag) _ _
              (GoesOn-checked q _ _ (forward.read_varint32 q)) (GoesOn-unusual _ e tag q))))

  snapshot-GoesOn : (tag : ℕ) (q : Bytes) (s : Snapshot) → GoesOn q (snapshot_fields r tag q s)
  unfolding snapshot_fields
  snapshot-GoesOn tag q s =
      if_keeps (GoesOn q) (is_field 1 10 tag) _ _
        (GoesOn-checked q _ _
          (forward.parse_message (internal_parse_header r) (mutable_hdr s.hdr) q))
        (if_keeps (GoesOn q) (is_field 2 16 tag) _ _
          (GoesOn-checked q _ _ (forward.read_varint32 q))
          (if_keeps (GoesOn q) (is_field 3 26 tag) _ _
            (GoesOn-checked q _ _ (forward.parse_string q)) (GoesOn-unusual _ s tag q)))

  -- `_InternalParse` ends on every input, with readers that go forward as documented: with as many rounds
  -- as there are bytes, or more, the loop of each of the three messages always gives the same.
  pub parse-ends :
      (fuel : ℕ) (ptr : Bytes) (h : Header) (e : Edge) (s : Snapshot)
      → length ptr ≤ fuel
      → (parse_loop r (header_round r) fuel ptr h ≡ internal_parse_header r ptr h)
        × (parse_loop r (edge_round r) fuel ptr e ≡ internal_parse_edge r ptr e)
        × (parse_loop r (snapshot_fields r) fuel ptr s ≡ internal_parse_snapshot r ptr s)
  unfolding internal_parse_header internal_parse_edge internal_parse_snapshot
  parse-ends fuel ptr h e s enough = (
    loop-fuel (header_round r) header-GoesOn fuel (length ptr) ptr h enough (omega arith),
    loop-fuel (edge_round r) edge-GoesOn fuel (length ptr) ptr e enough (omega arith),
    loop-fuel (snapshot_fields r) snapshot-GoesOn fuel (length ptr) ptr s enough (omega arith),
  )
