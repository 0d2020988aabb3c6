-- ===== src/Examples/Reports.antt =====
-- The theorems on reports, at both ends of the HID socket.
use quic_keys.Common.{◌-◌, ◌≡◌, [], ◌∷◌, ◌++◌, refl, arith, take, drop}
use quic_keys.Device.{usb_hid_kbd_apply_report, read_all}
use quic_keys.Device.Ingest.{Holds}
use quic_keys.EndToEnd.{Emitted, bytes_of, short_send_mixes}
use quic_keys.Examples.{guest}

pub guest-Holds : Holds guest []
guest-Holds = record { size = refl; count = refl; short = omega arith; content = refl }

-- Shift with `a` and `b`, and `c` alone.
abbrev shifted : Emitted
shifted = record { pressed = 4 ∷ 5 ∷ []; modifiers = 2 }

abbrev plain : Emitted
plain = record { pressed = 6 ∷ []; modifiers = 0 }

short_send_mixes_example :
    let us = read_all 16 (take 3 (bytes_of shifted) ∷ bytes_of plain ∷ []) guest in
    (us.hid
      ≡ usb_hid_kbd_apply_report 16
          (take 3 (bytes_of shifted) ++ take (8 - 3) (bytes_of plain))
          guest.hid)
    × Holds us (drop (8 - 3) (bytes_of plain))
short_send_mixes_example =
    short_send_mixes 16 shifted plain 3 guest (omega arith) (omega arith) guest-Holds
