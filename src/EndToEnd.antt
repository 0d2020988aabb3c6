-- ===== src/EndToEnd.antt =====
-- From the daemon's state to the keyboard of the guest: the reports that daemon/src/main.cpp sends, as
-- qemu/dev-hid.c takes them from the socket.
pub mod GetReport
pub mod Interleaved
pub mod Typing
use quic_keys.Common.{
  false, ℕ, ◌+◌, ◌-◌, ◌≤◌, ◌<◌, List, [], ◌∷◌, ◌++◌, append-nil, ◌≡◌, ◌≢◌, refl, sym, ap, ◌∙◌,
  arith, Bytes, All, length, take, drop, replicate, map, length-take, length-append, zero, suc,
  map-append, All-take, length-drop, append_assoc, take-append-drop,
}
use quic_keys.Report.{report_of}
use quic_keys.Report.Layout.{report_of_bytes, length-report_of}
use quic_keys.Wire.{byte_at}
use quic_keys.Stream.{deliver}
use quic_keys.Stream.Framing.{concat, deliver-concat, deliver-append, deliver_whole, deliver_short}
use quic_keys.Device.{HidState, UsbHidState, usb_hid_kbd_apply_report, read_all}
use quic_keys.Device.Apply.{nonzero, padded, apply_report_effect}
use quic_keys.Device.Ingest.{Holds, apply_all, read_all-deliver}

-- A state of the daemon as far as a report shows it.
pub record Emitted : Type 0 where
  pub pressed : List ℕ
  pub modifiers : ℕ

abbrev pub bytes_of : Emitted → Bytes
bytes_of e = (report_of e.pressed e.modifiers).bytes

reports-whole : (es : List Emitted) → All (λ m. length m ≡ 8) (map bytes_of es)
reports-whole [] = tt
reports-whole (e ∷ es) = (length-report_of e.pressed e.modifiers, reports-whole es)

nonzero-zeros : (n : ℕ) → nonzero (replicate n 0) ≡ []
unfolding nonzero
nonzero-zeros zero = refl
nonzero-zeros (suc n) = nonzero-zeros n

nonzero-padded : (xs : List ℕ) (n : ℕ) → All (λ u. u ≢ 0) xs → nonzero (xs ++ replicate n 0) ≡ xs
unfolding nonzero
nonzero-padded [] n h = nonzero-zeros n
nonzero-padded (x ∷ xs) n (hx, h) = ground (arith, nonzero-padded xs n h)

-- The keys of a report are those that were picked.
keys_of_report :
    (pressed : List ℕ) (modifiers : ℕ)
    → All (λ u. u ≢ 0) pressed
    → nonzero (drop 2 (report_of pressed modifiers).bytes) ≡ take 6 pressed
keys_of_report pressed modifiers h = rw (report_of_bytes pressed modifiers) (
    nonzero-padded (take 6 pressed) (6 - length (take 6 pressed))
      (All-take (λ u. u ≢ 0) 6 pressed h))

apply_all-last :
    (key_size : ℕ) (rs : List Bytes) (r : Bytes) (hs : HidState)
    → apply_all key_size (rs ++ r ∷ []) hs
      ≡ usb_hid_kbd_apply_report key_size r (apply_all key_size rs hs)
unfolding apply_all
apply_all-last key_size [] r hs = refl
apply_all-last key_size (x ∷ rs) r hs = apply_all-last key_size rs r _

-- The device applies the reports that the daemon sent, in the order in which it sent them, however
-- the socket splits their bytes over reads.
pub device_applies_reports :
    (key_size : ℕ) (states : List Emitted) (reads : List Bytes) (us : UsbHidState)
    → Holds us []
    → concat reads ≡ concat (map bytes_of states)
    → (read_all key_size reads us).hid ≡ apply_all key_size (map bytes_of states) us.hid
device_applies_reports key_size states reads us h same =
    (read_all-deliver key_size reads us [] h).0
    ∙ rw same (rw (deliver-concat 8 (map bytes_of states) (omega arith) (reports-whole states)))

-- The guest's state after a run of reports: that of the last one.
guest_state :
    (key_size : ℕ) (before : List Emitted) (last : Emitted) (reads : List Bytes) (us : UsbHidState)
    → 6 ≤ key_size
    → Holds us []
    → concat reads ≡ concat (map bytes_of (before ++ last ∷ []))
    → All (λ u. u ≢ 0) last.pressed
    → let hs = apply_all key_size (map bytes_of before) us.hid in
      (read_all key_size reads us).hid ≡ record hs {
        modifiers = last.modifiers;
        key = padded key_size (take 6 last.pressed);
        keys = length (take 6 last.pressed);
        n = 0;
        idle_pending = false;
        wakeups = hs.wakeups + 1;
      }
guest_state key_size before last reads us room h same known =
    let applied = device_applies_reports key_size (before ++ last ∷ []) reads us h same in
    let split = map-append bytes_of before (last ∷ []) in
    let final = apply_all-last key_size (map bytes_of before) (bytes_of last) us.hid in
    let effect =
      apply_report_effect key_size (bytes_of last) (apply_all key_size (map bytes_of before) us.hid)
        (length-report_of last.pressed last.modifiers) room in
    let keys = keys_of_report last.pressed last.modifiers known in
    let first : byte_at (bytes_of last) 0 ≡ last.modifiers =
      ap (λ bs. byte_at bs 0) (report_of_bytes last.pressed last.modifiers) in
    rw (split, final) at applied ∙ rw (keys, first) at effect

-- After any run of reports, read in any pieces into a buffer that was empty, the guest's keyboard
-- shows the daemon's last state, if no pressed key is 0 and the array has room for six keys: its
-- modifiers and the first six of its keys, in order, padded with zeros, and their number.
pub guest_shows_last :
    (key_size : ℕ) (before : List Emitted) (last : Emitted) (reads : List Bytes) (us : UsbHidState)
    → 6 ≤ key_size
    → Holds us []
    → concat reads ≡ concat (map bytes_of (before ++ last ∷ []))
    → All (λ u. u ≢ 0) last.pressed
    → let hs = (read_all key_size reads us).hid in
      (hs.modifiers ≡ last.modifiers)
      × (hs.key ≡ padded key_size (take 6 last.pressed))
      × (hs.keys ≡ length (take 6 last.pressed))
guest_shows_last key_size before last reads us room h same known =
    let whole = guest_state key_size before last reads us room h same known in
    (
      ap (λ (hs : HidState). hs.modifiers) whole,
      ap (λ (hs : HidState). hs.key) whole,
      ap (λ (hs : HidState). hs.keys) whole,
    )

-- A `send` that takes only the first `n` bytes of a report, between 1 and 7, and is followed by a
-- whole report makes a device whose buffer was empty apply a mixture of the two, and keep the end
-- of the second as the start of the next.
pub short_send_mixes :
    (key_size : ℕ) (first second : Emitted) (n : ℕ) (us : UsbHidState)
    → 0 < n
    → n < 8
    → Holds us []
    → let us' = read_all key_size (take n (bytes_of first) ∷ bytes_of second ∷ []) us in
      (us'.hid
        ≡ usb_hid_kbd_apply_report key_size
            (take n (bytes_of first) ++ take (8 - n) (bytes_of second))
            us.hid)
      × Holds us' (drop (8 - n) (bytes_of second))
unfolding apply_all
short_send_mixes key_size first second n us some_bytes few h =
    let a = bytes_of first in
    let b = bytes_of second in
    let mixed = take n a ++ take (8 - n) b in
    let left = drop (8 - n) b in
    let first_size = length-report_of first.pressed first.modifiers in
    let second_size = length-report_of second.pressed second.modifiers in
    let stream : take n a ++ (b ++ []) ≡ mixed ++ left = rw append-nil (
      ap (λ t. take n a ++ t) (sym (take-append-drop (8 - n) b))
      ∙ sym (append_assoc (take n a) (take (8 - n) b) left)) in
    let eight : length mixed ≡ 8 = omega (
      arith,
      length-append (take n a) (take (8 - n) b),
      length-take n a,
      length-take (8 - n) b,
      first_size,
      second_size,
    ) in
    let short : length left < 8 = omega (arith, length-drop (8 - n) b, second_size) in
    let cut : deliver 8 (mixed ++ left) ≡ record { messages = mixed ∷ []; pending = left } =
      deliver-append 8 mixed left (omega arith)
      ∙ rw (deliver_whole 8 mixed (omega arith) eight) (rw (deliver_short 8 left short)) in
    let read = read_all-deliver key_size (take n a ∷ b ∷ []) us [] h in rw (stream, cut) at read
