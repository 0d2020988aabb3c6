-- ===== src/Device/Ingest.antt =====
-- How `kbd_chr_read` cuts the bytes of the socket into reports, over any split into reads.
use quic_keys.Common.{
  ℕ, zero, suc, ◌+◌, ◌-◌, ◌≤◌, ◌<◌, true, false, List, [], ◌∷◌, ◌++◌, append_assoc, append-nil, ◌≡◌,
  refl, ap, ◌∙◌, arith, Bytes, length, take, set, ltb, leb, length-set, length-append, take-set,
  get_or-take, replicate,
}
use native.Mathlib.Decide.{dec_lt}
use quic_keys.Stream.{deliver}
use quic_keys.Stream.Framing.{concat, deliver-append, deliver_short, deliver_whole}
use quic_keys.Device.{
  HidState, UsbHidState, sock_buf_size, collect, usb_hid_kbd_apply_report, kbd_chr_can_read,
  move_down, accept, kbd_chr_read, read_all, empty_sock_buf,
}

-- The reports applied one after another.
unfoldable pub apply_all : ℕ → List Bytes → HidState → HidState
apply_all key_size [] hs = hs
apply_all key_size (r ∷ rs) hs = apply_all key_size rs (usb_hid_kbd_apply_report key_size r hs)

-- The buffer holds the bytes `p` of an unfinished report.
pub record Holds (us : UsbHidState) (p : Bytes) : Type 0 where
  pub size : length us.kbd_sock_buf ≡ sock_buf_size
  pub count : us.kbd_sock_len ≡ length p
  pub short : length p < 8
  pub content : take (length p) us.kbd_sock_buf ≡ p

collect_first_eight :
    (key_size rounds i : ℕ) (buf key : Bytes) (cnt : ℕ)
    → i + rounds ≤ 8
    → collect key_size rounds i buf key cnt ≡ collect key_size rounds i (take 8 buf) key cnt
unfolding collect
collect_first_eight key_size zero i buf key cnt h = refl
collect_first_eight key_size (suc r) i buf key cnt h =
    rw (← get_or-take 8 i buf 0 (omega arith))
      (collect_first_eight key_size r (i + 1) buf _ _ (omega arith))

-- Only the first eight bytes of the buffer matter.
apply_first_eight :
    (key_size : ℕ) (buf : Bytes) (hs : HidState)
    → usb_hid_kbd_apply_report key_size buf hs ≡ usb_hid_kbd_apply_report key_size (take 8 buf) hs
unfolding usb_hid_kbd_apply_report
apply_first_eight key_size buf hs =
    let keys = collect_first_eight key_size 6 2 buf (replicate key_size 0) 0 (omega arith) in
    let mods = get_or-take 8 0 buf 0 (omega arith) in rw (keys, mods)

module _ (key_size b : ℕ) (us : UsbHidState) (p : Bytes) (h : Holds us p) where
  written : take (length p + 1) (set us.kbd_sock_buf us.kbd_sock_len b) ≡ p ++ b ∷ []
  written =
      let room : length p < length us.kbd_sock_buf = omega (arith, h.size, h.short) in
      rw h.count (take-set (length p) us.kbd_sock_buf b room ∙ rw h.content)

  accept_more :
      length p + 1 < 8
      → ((accept key_size b us).hid ≡ us.hid) × Holds (accept key_size b us) (p ++ b ∷ [])
  unfolding accept
  accept_more few =
      let test : leb 8 (us.kbd_sock_len + 1) ≡ false = ground (arith, h.count) in
      let longer = length-append p (b ∷ []) in
      rw test (
        refl,
        record {
          size = length-set us.kbd_sock_buf us.kbd_sock_len b ∙ h.size;
          count = omega (arith, h.count, longer);
          short = omega (arith, longer);
          content = rw longer written;
        },
      )

  accept_full :
      length p + 1 ≡ 8
      → ((accept key_size b us).hid ≡ usb_hid_kbd_apply_report key_size (p ++ b ∷ []) us.hid)
        × Holds (accept key_size b us) []
  unfolding accept move_down
  accept_full full =
      let test : leb 8 (us.kbd_sock_len + 1) ≡ true = ground (arith, h.count) in
      let none_left : us.kbd_sock_len + 1 - 8 ≡ 0 = omega (arith, h.count) in
      let buf = set us.kbd_sock_buf us.kbd_sock_len b in
      let report : take 8 buf ≡ p ++ b ∷ [] = rw full at written in
      rw (test, none_left)
        (
          apply_first_eight key_size buf us.hid ∙ rw report,
          record {
            size = length-set us.kbd_sock_buf us.kbd_sock_len b ∙ h.size;
            count = refl;
            short = omega arith;
            content = refl;
          },
        )

  -- One byte: the report is applied when it is whole.
  accept-deliver :
      let d = deliver 8 (p ++ b ∷ []) in
      ((accept key_size b us).hid ≡ apply_all key_size d.messages us.hid)
      × Holds (accept key_size b us) d.pending
  unfolding apply_all
  accept-deliver = elim (dec_lt (length p + 1) 8) [
    | yes few ↦
        rw (deliver_short 8 (p ++ b ∷ []) (omega (arith, length-append p (b ∷ []))))
          (accept_more few)
    | no many ↦
        let full : length p + 1 ≡ 8 = omega (arith, h.short) in
        rw (deliver_whole 8 (p ++ b ∷ []) (omega arith) (omega (arith, length-append p (b ∷ []))))
          (accept_full full)
  ]

apply_all-append :
    (key_size : ℕ) (xs ys : List Bytes) (hs : HidState)
    → apply_all key_size (xs ++ ys) hs ≡ apply_all key_size ys (apply_all key_size xs hs)
unfolding apply_all
apply_all-append key_size [] ys hs = refl
apply_all-append key_size (x ∷ xs) ys hs = apply_all-append key_size xs ys _

-- A read takes every byte it is given, applies the reports that become whole, in order, and keeps
-- the bytes of the unfinished one.
pub kbd_chr_read-deliver :
    (key_size : ℕ) (bytes : Bytes) (us : UsbHidState) (p : Bytes)
    → Holds us p
    → let d = deliver 8 (p ++ bytes) in
      ((kbd_chr_read key_size bytes us).hid ≡ apply_all key_size d.messages us.hid)
      × Holds (kbd_chr_read key_size bytes us) d.pending
unfolding kbd_chr_read
kbd_chr_read-deliver key_size [] us p h =
    rw append-nil (rw (deliver_short 8 p h.short) (unfold apply_all in refl, h))
kbd_chr_read-deliver key_size (b ∷ bytes) us p h =
    let first = deliver 8 (p ++ b ∷ []) in
    let (hid, holds) = accept-deliver key_size b us p h in
    let room : ltb us.kbd_sock_len sock_buf_size ≡ true = ground (arith, h.count, h.short) in
    let (hid', holds') =
      kbd_chr_read-deliver key_size bytes (accept key_size b us) first.pending holds in
    let whole =
      rw (append_assoc p (b ∷ []) bytes) at (deliver-append 8 (p ++ b ∷ []) bytes (omega arith)) in
    let later = (deliver 8 (first.pending ++ bytes)).messages in
    rw (room, whole, apply_all-append key_size first.messages later us.hid)
      (hid' ∙ ap (apply_all key_size later) hid, holds')

-- From a buffer that holds the bytes of an unfinished report, however the socket's bytes are split
-- over reads: the reports applied are those of the whole stream, in order, and the buffer holds
-- the rest.
pub read_all-deliver :
    (key_size : ℕ) (reads : List Bytes) (us : UsbHidState) (p : Bytes)
    → Holds us p
    → let d = deliver 8 (p ++ concat reads) in
      ((read_all key_size reads us).hid ≡ apply_all key_size d.messages us.hid)
      × Holds (read_all key_size reads us) d.pending
unfolding read_all
read_all-deliver key_size [] us p h =
    rw append-nil (rw (deliver_short 8 p h.short) (unfold apply_all in refl, h))
read_all-deliver key_size (r ∷ rs) us p h =
    let first = deliver 8 (p ++ r) in
    let (hid, holds) = kbd_chr_read-deliver key_size r us p h in
    let (hid', holds') =
      read_all-deliver key_size rs (kbd_chr_read key_size r us) first.pending holds in
    let whole =
      rw (append_assoc p r (concat rs)) at (deliver-append 8 (p ++ r) (concat rs) (omega arith)) in
    let later = (deliver 8 (first.pending ++ concat rs)).messages in
    rw (whole, apply_all-append key_size first.messages later us.hid)
      (hid' ∙ ap (apply_all key_size later) hid, holds')

-- A keyboard that was just realized holds no bytes.
pub empty_sock_buf-Holds :
    (us : UsbHidState) → length us.kbd_sock_buf ≡ sock_buf_size → Holds (empty_sock_buf us) []
unfolding empty_sock_buf
empty_sock_buf-Holds us h = record { size = h; count = refl; short = omega arith; content = refl }

-- While a report is unfinished the backend asks for at least one byte more than the report lacks.
pub kbd_chr_can_read_enough : (us : UsbHidState) (p : Bytes) → Holds us p → 8 < kbd_chr_can_read us
unfolding kbd_chr_can_read
kbd_chr_can_read_enough us p h = omega (arith, h.count, h.short)
