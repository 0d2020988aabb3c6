-- ===== src/Usb/Lifecycle/Migration.antt =====
-- A migration in the middle of a report.
use quic_keys.Common.{
  ℕ, ◌<◌, [], ◌∷◌, ◌++◌, ◌≡◌, sym, ap, ◌∙◌, arith, Bytes, length, take, drop, length-append,
  length-take, length-drop, append_assoc, take-append-drop,
}
use quic_keys.Stream.{deliver}
use quic_keys.Stream.Framing.{deliver-append, deliver_whole, deliver_short}
use quic_keys.Device.{HidState, usb_hid_kbd_apply_report, kbd_chr_read}
use quic_keys.Device.Ingest.{Holds, apply_all, kbd_chr_read-deliver}
use quic_keys.Usb.Lifecycle.{UsbDevice, migrate_kbd}

-- A keyboard that is migrated after the first `n` bytes of a report, between 1 and 7, onto a device
-- that was just realized: the rest of that report and the beginning of the next are applied as one.
pub migrated_mixes :
    (transfer : HidState → HidState → HidState) (key_size : ℕ) (from to : UsbDevice)
    (first second : Bytes) (n : ℕ)
    → 0 < n
    → n < 8
    → length first ≡ 8
    → length second ≡ 8
    → Holds from.us (take n first)
    → Holds to.us []
    → let migrated = migrate_kbd transfer from to in
      let after = kbd_chr_read key_size (drop n first ++ second) migrated.us in
      (after.hid
        ≡ usb_hid_kbd_apply_report key_size (drop n first ++ take n second) migrated.us.hid)
      × Holds after (drop n second)
unfolding migrate_kbd apply_all
migrated_mixes transfer key_size from to first second n some_bytes few h1 h2 held empty =
    let mixed = drop n first ++ take n second in
    let left = drop n second in
    let stream : drop n first ++ second ≡ mixed ++ left =
      ap (λ t. drop n first ++ t) (sym (take-append-drop n second))
      ∙ sym (append_assoc (drop n first) (take n second) left) in
    let eight : length mixed ≡ 8 = omega (
      arith,
      length-append (drop n first) (take n second),
      length-drop n first,
      length-take n second,
    ) in
    let short : length left < 8 = omega (arith, length-drop n second) in
    let cut : deliver 8 (mixed ++ left) ≡ record { messages = mixed ∷ []; pending = left } =
      deliver-append 8 mixed left (omega arith)
      ∙ rw (deliver_whole 8 mixed (omega arith) eight) (rw (deliver_short 8 left short)) in
    rw stream (
      rw cut at (
        kbd_chr_read-deliver key_size (mixed ++ left) (migrate_kbd transfer from to).us []
          held_empty))
  where
    held_empty : Holds (migrate_kbd transfer from to).us []
    held_empty = record {
      size = empty.size;
      count = empty.count;
      short = empty.short;
      content = empty.content;
    }
