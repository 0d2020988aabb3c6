-- ===== src/EndToEnd/Interleaved.antt =====
-- From the threads of daemon/src/main.cpp to the keyboard of the guest in qemu/dev-hid.c.
use quic_keys.Common.{ℕ, List, [], ◌∷◌, map, ◌≡◌, refl, sym, ap, ap₂, ◌∙◌, Bytes, All}
use quic_keys.Report.{HidReport8}
use quic_keys.Stream.Framing.{concat}
use quic_keys.Keyboard.{Limits, Action, initial, run}
use quic_keys.Device.{UsbHidState, read_all}
use quic_keys.Device.Ingest.{Holds, apply_all}
use quic_keys.Threads.{System, Reach}
use quic_keys.Threads.Consistency.{WasCurrent, Reach-IsConsistent}
use quic_keys.EndToEnd.{Emitted, bytes_of, device_applies_reports}

abbrev pub report_bytes : List HidReport8 → List Bytes
report_bytes rs = map (λ (r : HidReport8). r.bytes) rs

-- The states that the reports show.
states :
    (c : Limits) (h : List Action) (rs : List HidReport8)
    → All (WasCurrent c h) rs
    → (es : List Emitted) × (map bytes_of es ≡ report_bytes rs)
states c h [] w = ([], refl)
states c h (r ∷ rs) ((first, rest, whole, shown), ws) =
    let (es, same) = states c h rs ws in
    let k = run c first initial in
    let e : Emitted = record { pressed = k.pressed; modifiers = k.modifiers } in
    (
      e ∷ es,
      ap₂ (λ (x : Bytes) (xs : List Bytes). x ∷ xs) (ap (λ (x : HidReport8). x.bytes) (sym shown))
          same,
    )

-- Whatever the threads do, if the socket carries the bytes of the reports that were sent, in any pieces,
-- into a buffer that was empty: the device applies just these reports, each whole and in the order in
-- which they were sent, and each shows a state that the sections went through.
pub guest_follows :
    (c : Limits) (n key_size : ℕ) (s : System) (reads : List Bytes) (us : UsbHidState)
    → Reach c n s
    → Holds us []
    → concat reads ≡ concat (report_bytes s.shared.sent)
    → ((read_all key_size reads us).hid ≡ apply_all key_size (report_bytes s.shared.sent) us.hid)
      × All (WasCurrent c s.shared.history) s.shared.sent
guest_follows c n key_size s reads us r h carried =
    let shown = (Reach-IsConsistent c n s r).reports in
    let (es, same) = states c s.shared.history s.shared.sent shown in
    (
      device_applies_reports key_size es reads us h (carried ∙ ap concat (sym same))
          ∙ ap (λ bs. apply_all key_size bs us.hid) same,
      shown,
    )
