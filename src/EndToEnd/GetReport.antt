-- ===== src/EndToEnd/GetReport.antt =====
-- From the daemon's state to the guest's GET_REPORT.
use quic_keys.Common.{
  ℕ, ◌-◌, ◌≤◌, false, List, [], ◌∷◌, ◌++◌, ◌≡◌, ◌≢◌, refl, ap, ◌∙◌, sym, arith, Bytes, All, length,
  take, replicate, map, length-take, zero, suc,
}
use quic_keys.Report.Layout.{report_of_bytes}
use quic_keys.Stream.Framing.{concat}
use quic_keys.Device.{keyboard, HidState, UsbHidState, read_all}
use quic_keys.Device.Apply.{padded, apply_report-quiet}
use quic_keys.Usb.Requests.Answers.{get_report-keyboard}
use quic_keys.Device.Ingest.{Holds, apply_all}
use quic_keys.Usb.Requests.{
  Control, hid_get_report, Packet, HidLayer, answer, usb_hid_handle_control, is_pointer,
}
use quic_keys.EndToEnd.{Emitted, bytes_of, guest_state}

take-zeros : (n m : ℕ) → n ≤ m → take {A = ℕ} n (replicate m 0) ≡ replicate n 0
take-zeros zero m h = refl
take-zeros (suc n) zero h = absurd (omega arith)
take-zeros (suc n) (suc m) h = ap (λ t. zero ∷ t) (take-zeros n m (omega arith))

-- The front of a padded array is the padding to the front's length.
take-padded :
    (xs : List ℕ) (n size : ℕ)
    → length xs ≤ n
    → n ≤ size
    → take n (padded size xs) ≡ xs ++ replicate (n - length xs) 0
take-padded [] n size h k =
    let e : size - 0 ≡ size = omega arith in
    let e' : n - 0 ≡ n = omega arith in rw (e, e') (take-zeros n size k)
take-padded (x ∷ xs) zero size h k = absurd (omega arith)
take-padded (x ∷ xs) (suc n) zero h k = absurd (omega arith)
take-padded (x ∷ xs) (suc n) (suc size) h k =
    let e : suc size - suc (length xs) ≡ size - length xs = omega arith in
    let e' : suc n - suc (length xs) ≡ n - length xs = omega arith in
    rw (e, e') (ap (λ t. x ∷ t) (take-padded xs n size (omega arith) (omega arith)))

apply_all-kind :
    (key_size : ℕ) (rs : List Bytes) (hs : HidState) → (apply_all key_size rs hs).kind ≡ hs.kind
unfolding apply_all
apply_all-kind key_size [] hs = refl
apply_all-kind key_size (r ∷ rs) hs =
    apply_all-kind key_size rs _ ∙ (apply_report-quiet key_size r hs).0

-- Where QEMU's keyboard poll gives, with an empty queue and at most six keys, the modifiers, a zero
-- byte and the first six bytes of the key array: after any run of reports, read in any pieces into a
-- buffer that was empty, the guest's GET_REPORT is answered with the daemon's last report, byte for
-- byte, if no pressed key is 0 and the array has room for six keys.
pub get_report-last :
    (q : HidLayer) (key_size : ℕ) (before : List Emitted) (last : Emitted) (reads : List Bytes)
    (us : UsbHidState) (c : Control) (p : Packet)
    → 6 ≤ key_size
    → Holds us []
    → concat reads ≡ concat (map bytes_of (before ++ last ∷ []))
    → All (λ u. u ≢ 0) last.pressed
    → us.hid.kind ≡ keyboard
    → c.request ≡ hid_get_report
    → 8 ≤ c.max_length
    → (q.usb_desc_handle_control c p).0 ≡ false
    → ((n : ℕ) (hs : HidState)
        → 8 ≤ n
        → hs.n ≡ 0
        → hs.keys ≤ 6
        → (q.hid_keyboard_poll n hs).1 ≡ hs.modifiers ∷ 0 ∷ take 6 hs.key)
    → (usb_hid_handle_control q c (read_all key_size reads us).hid p).1
      ≡ answer (bytes_of last) (q.usb_desc_handle_control c p).1
get_report-last q key_size before last reads us c p room h same known kbd req long left polls =
    let final = guest_state key_size before last reads us room h same known in
    let hs = (read_all key_size reads us).hid in
    let few : length (take 6 last.pressed) ≤ 6 = omega (arith, length-take 6 last.pressed) in
    let kind : hs.kind ≡ keyboard =
      ap (λ (s : HidState). s.kind) final
      ∙ apply_all-kind key_size (map bytes_of before) us.hid
      ∙ kbd in
    let pointer : is_pointer hs.kind ≡ false = unfold is_pointer in ap is_pointer kind in
    let counted : hs.keys ≡ length (take 6 last.pressed) = ap (λ (s : HidState). s.keys) final in
    let polled = polls c.max_length hs long (ap (λ (s : HidState). s.n) final) (omega arith) in
    let shown : (q.hid_keyboard_poll c.max_length hs).1 ≡ bytes_of last =
      polled
      ∙ rw (ap (λ (s : HidState). s.modifiers) final, ap (λ (s : HidState). s.key) final)
          (rw (take-padded (take 6 last.pressed) 6 key_size few room)
            (sym (report_of_bytes last.pressed last.modifiers))) in
    get_report-keyboard q c hs p pointer req left
    ∙ ap (λ bs. answer bs (q.usb_desc_handle_control c p).1) shown
