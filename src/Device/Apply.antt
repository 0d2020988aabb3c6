-- ===== src/Device/Apply.antt =====
-- What a report makes of the keyboard's state.
use quic_keys.Common.{
  ℕ, suc, ◌+◌, ◌-◌, ◌≤◌, ◌<◌, true, false, [], ◌∷◌, ◌++◌, append_assoc, append-nil, ◌≡◌, refl, ap,
  ◌∙◌, arith, Bytes, length, drop, set, replicate, lt→ltb, ◌==◌, if◌then◌else◌, min, length-append,
  get_or-append, set-append, Bool-cases, inl, inr,
}
use quic_keys.Wire.{byte_at}
use quic_keys.Device.{HidState, collect, usb_hid_kbd_apply_report, usb_hid_changed}

-- The bytes that are not 0.
unfoldable pub nonzero : Bytes → Bytes
nonzero [] = []
nonzero (b ∷ bs) = if b == 0 then nonzero bs else b ∷ nonzero bs

pub length-nonzero : (bs : Bytes) → length (nonzero bs) ≤ length bs
unfolding nonzero
length-nonzero [] = omega arith
length-nonzero (b ∷ bs) = ground (arith, length-nonzero bs)

abbrev pub padded : ℕ → Bytes → Bytes
padded key_size key = key ++ replicate (key_size - length key) 0

-- Writing the next key.
set-padded :
    (key_size : ℕ) (key : Bytes) (b : ℕ)
    → length key < key_size
    → set (padded key_size key) (length key) b ≡ padded key_size (key ++ b ∷ [])
set-padded key_size key b h =
    let e : key_size - length key ≡ suc (key_size - length (key ++ b ∷ [])) =
      omega (arith, length-append key (b ∷ [])) in
    rw e (set-append key (replicate (key_size - length (key ++ b ∷ [])) 0) 0 b)

byte_at-append : (pre rest : Bytes) (x : ℕ) → byte_at (pre ++ x ∷ rest) (length pre) ≡ x
byte_at-append pre rest x =
    let e : length pre ≡ length pre + 0 = omega arith in
    ap (byte_at (pre ++ x ∷ rest)) e ∙ get_or-append (length pre) 0 pre (x ∷ rest) 0 refl

collect_zero :
    (key_size r i b : ℕ) (rep key : Bytes) (cnt : ℕ)
    → byte_at rep i ≡ b
    → (b == 0) ≡ true
    → collect key_size (suc r) i rep key cnt ≡ collect key_size r (i + 1) rep key cnt
unfolding collect
collect_zero key_size r i b rep key cnt e z = rw (e, collect) (rw z)

collect_key :
    (key_size r i b : ℕ) (rep key : Bytes) (cnt : ℕ)
    → byte_at rep i ≡ b
    → (b == 0) ≡ false
    → cnt < key_size
    → collect key_size (suc r) i rep key cnt
      ≡ collect key_size r (i + 1) rep (set key cnt b) (cnt + 1)
unfolding collect
collect_key key_size r i b rep key cnt e nz fits =
    rw (e, collect) (rw (nz, lt→ltb cnt key_size fits))

-- The loop over `rest`, behind `pre`, with `key` collected so far.
collect-nonzero :
    (key_size : ℕ) (pre rest key : Bytes)
    → length key + length rest ≤ key_size
    → collect key_size (length rest) (length pre) (pre ++ rest) (padded key_size key) (length key)
      ≡ (padded key_size (key ++ nonzero rest), length (key ++ nonzero rest))
unfolding collect nonzero
collect-nonzero key_size pre [] key h = rw append-nil
collect-nonzero key_size pre (x ∷ rest) key h =
    let next = pre ++ x ∷ [] in
    let place : length next ≡ length pre + 1 = omega (arith, length-append pre (x ∷ [])) in
    let skip = collect-nonzero key_size next rest key (omega arith) in
    let add =
      collect-nonzero key_size next rest (key ++ x ∷ [])
        (omega (arith, length-append key (x ∷ []))) in
    let at_place = byte_at-append pre rest x in
    let whole = append_assoc pre (x ∷ []) rest in
    elim (Bool-cases (x == 0)) [
      | inl z ↦
          collect_zero key_size (length rest) (length pre) x (pre ++ x ∷ rest) (padded key_size key)
            (length key) at_place z
          ∙ rw z (rw (whole, place) at skip)
      | inr nz ↦
          let longer = length-append key (x ∷ []) in
          collect_key key_size (length rest) (length pre) x (pre ++ x ∷ rest) (padded key_size key)
            (length key) at_place nz (omega arith)
          ∙ rw (nz, set-padded key_size key x (omega arith), longer)
              (rw (whole, place, longer, append_assoc key (x ∷ []) (nonzero rest)) at add)
    ]

-- A report of eight bytes, on an array with room for six keys, sets the modifiers to its first
-- byte and the keys to the bytes behind the second that are not 0, in order, with zeros up to the
-- end of the array and their number in `keys`; it empties the queue, clears the idle flag and
-- wakes the endpoint once.
pub apply_report_effect :
    (key_size : ℕ) (rep : Bytes) (hs : HidState)
    → length rep ≡ 8
    → 6 ≤ key_size
    → usb_hid_kbd_apply_report key_size rep hs ≡ record hs {
      modifiers = byte_at rep 0;
      key = padded key_size (nonzero (drop 2 rep));
      keys = length (nonzero (drop 2 rep));
      n = 0;
      idle_pending = false;
      wakeups = hs.wakeups + 1;
    }
apply_report_effect key_size [] hs h room = absurd (omega arith)
apply_report_effect key_size (a ∷ []) hs h room = absurd (omega arith)
apply_report_effect key_size (a ∷ b ∷ rest) hs h room =
    let six : length rest ≡ 6 = omega arith in
    let empty : key_size - 0 ≡ key_size = omega arith in
    let all = collect-nonzero key_size (a ∷ b ∷ []) rest [] (omega arith) in
    let got = rw (six, empty) at all in
    let fits : min (length (nonzero rest)) key_size ≡ length (nonzero rest) =
      omega (arith, length-nonzero rest) in
    unfold usb_hid_kbd_apply_report usb_hid_changed in rw got (rw fits)

-- A report keeps the kind of the device and leaves nothing to announce.
pub apply_report-quiet :
    (key_size : ℕ) (rep : Bytes) (hs : HidState)
    → ((usb_hid_kbd_apply_report key_size rep hs).kind ≡ hs.kind)
      × ((usb_hid_kbd_apply_report key_size rep hs).n ≡ 0)
      × ((usb_hid_kbd_apply_report key_size rep hs).idle_pending ≡ false)
unfolding usb_hid_kbd_apply_report usb_hid_changed
apply_report-quiet key_size rep hs = (refl, refl, refl)
