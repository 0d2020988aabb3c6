-- ===== src/Examples/Devices.antt =====
-- The theorems on the USB device: descriptors, requests, the device's life, a migration.
use quic_keys.Common.{
  ◌-◌, ℕ, ◌*◌, ◌≡◌, true, false, not, ◌||◌, ◌==◌, if◌then◌else◌, [], ◌∷◌, ◌++◌, refl, inl, arith,
  some, none, Bytes, length, take, drop, replicate,
}
use quic_keys.Report.{report_of}
use quic_keys.Device.{keyboard, usb_hid_kbd_apply_report, kbd_chr_read, read_all}
use quic_keys.Device.Ingest.{Holds}
use quic_keys.EndToEnd.{Emitted, bytes_of}
use quic_keys.EndToEnd.GetReport.{get_report-last}
use quic_keys.Usb.{UsbNumbers, UsbDesc}
use quic_keys.Usb.Items.{fields, input_bits, cut_input}
use quic_keys.Usb.Layout.{fits, keyboard_layout}
use quic_keys.Usb.Requests.{
  Control, Packet, HidLayer, success, nak, stall, hid_get_report, hid_set_protocol, answer,
  report_descriptor, usb_hid_handle_control, usb_hid_handle_data,
}
use quic_keys.Usb.Requests.Answers.{rejects, handle_control-status, report_not_announced}
use quic_keys.Usb.Lifecycle.{UsbDevice, HidLife, migrate_kbd}
use quic_keys.Usb.Lifecycle.Migration.{migrated_mixes}
use quic_keys.Usb.Lifecycle.Tables.{realize, realized_fits}
use quic_keys.Usb.Types.{UsbClass}
use quic_keys.Examples.Reports.{guest-Holds}
use quic_keys.Examples.{guest}

-- A HID layer that polls the keyboard as it stands.
abbrev layer : HidLayer
layer = record {
  usb_desc_handle_control = λ c p. (false, p);
  hid_reset = λ hs. hs;
  hid_pointer_poll = λ n hs. (hs, []);
  hid_keyboard_poll = λ n hs. (hs, hs.modifiers ∷ 0 ∷ take 6 hs.key);
  hid_keyboard_write = λ n bs hs. (hs, n);
  hid_set_next_idle = λ hs. hs;
  hid_pointer_activate = λ hs. hs;
  hid_has_events = λ hs. not (hs.n == 0) || hs.idle_pending;
}

abbrev life : HidLife
life = record {
  hid_init = λ k hs. (record hs { kind = k }, true);
  hid_free = λ hs. hs;
  hid_pointer_activate = λ hs. hs;
}

abbrev numbers : UsbNumbers
numbers = record {
  class_hid = 3;
  dt_hid = 0x21;
  dt_report = 0x22;
  dir_in = 0x80;
  endpoint_xfer_int = 3;
  cfg_att_one = 0x80;
  cfg_att_wakeup = 0x20;
}

-- A keyboard with a character device, before it is realized.
abbrev plugged : ℕ → UsbDevice
plugged version = record {
  us = guest;
  usb_version = version;
  usb_desc = none;
  intr = false;
  has_display = false;
  remote_wakeup = false;
  chr_connected = true;
  handlers = false;
  kbd_chr_inited = false;
}

abbrev request : Control
request = record { request = hid_get_report; value = 0x100; index = 0; max_length = 8 }

abbrev set_protocol : Control
set_protocol = record { request = hid_set_protocol; value = 0; index = 0; max_length = 0 }

abbrev packet : Packet
packet = record { status = success; actual_length = 0; buffer = replicate 64 0 }

abbrev shifted : Emitted
shifted = record { pressed = 4 ∷ 5 ∷ []; modifiers = 2 }

abbrev plain : Emitted
plain = record { pressed = 6 ∷ []; modifiers = 0 }

-- A boot report with `a`.
abbrev report : Bytes
report = 0 ∷ 0 ∷ 4 ∷ 0 ∷ 0 ∷ 0 ∷ 0 ∷ 0 ∷ []

keyboard_layout_example :
    let laid = fields (report_descriptor keyboard) in
    let bytes = (report_of (4 ∷ 5 ∷ []) 2).bytes in
    (cut_input laid bytes
      ≡ (2 ∷ [])
        ∷ (0 ∷ [])
        ∷ (take 6 (4 ∷ 5 ∷ []) ++ replicate (6 - length {A = ℕ} (take 6 (4 ∷ 5 ∷ []))) 0)
        ∷ [])
    × (input_bits laid ≡ 8 * length bytes)
keyboard_layout_example = keyboard_layout (4 ∷ 5 ∷ []) 2

realized_fits_example :
    (desc : UsbDesc) × ((realize life numbers keyboard (plugged 1)).0.usb_desc ≡ some desc)
    × (fits keyboard desc ≡ true)
realized_fits_example = realized_fits life numbers keyboard (plugged 1) (inl refl)

handle_control-status_example :
    let (hs', p') = usb_hid_handle_control layer set_protocol guest.hid packet in
    (p'.status ≡ (if rejects keyboard set_protocol then stall else success))
    × ((if rejects keyboard set_protocol then hs' else guest.hid) ≡ guest.hid)
handle_control-status_example = handle_control-status layer set_protocol guest.hid packet refl refl

report_not_announced_example :
    usb_hid_handle_data layer true 1 8 (usb_hid_kbd_apply_report 16 report guest.hid) packet
    ≡ (usb_hid_kbd_apply_report 16 report guest.hid, record packet { status = nak })
report_not_announced_example =
    report_not_announced layer 16 8 report guest.hid packet refl (λ hs n idle. rw (n, idle) refl)

get_report-last_example :
    (usb_hid_handle_control layer request
      (read_all 16 (bytes_of plain ∷ bytes_of shifted ∷ []) guest).hid
      packet).1
    ≡ answer (bytes_of shifted) packet
get_report-last_example =
    get_report-last layer 16 (plain ∷ []) shifted (bytes_of plain ∷ bytes_of shifted ∷ []) guest
      request packet (omega arith) guest-Holds refl
      (λ h. absurd (omega arith), (λ h. absurd (omega arith), tt)) refl refl (omega arith) refl
      (λ n hs h1 h2 h3. refl)

-- Three bytes of the report were read before the migration.
abbrev halfway : UsbDevice
halfway = record (plugged 2) {
  us = record guest { kbd_sock_buf = take 3 report ++ replicate 13 0; kbd_sock_len = 3 };
}

migrated_mixes_example :
    let migrated = migrate_kbd (λ from to. from) halfway (plugged 2) in
    let after = kbd_chr_read 16 (drop 3 report ++ report) migrated.us in
    (after.hid ≡ usb_hid_kbd_apply_report 16 (drop 3 report ++ take 3 report) migrated.us.hid)
    × Holds after (drop 3 report)
migrated_mixes_example =
    migrated_mixes (λ from to. from) 16 halfway (plugged 2) report report 3 (omega arith)
      (omega arith) refl refl
      (record { size = refl; count = refl; short = omega arith; content = refl }) guest-Holds

-- Over a class that sets nothing.
abbrev bare : UsbClass
bare = record {
  handle_reset = none;
  handle_control = none;
  handle_data = none;
  unrealize = none;
  realize = none;
  attaches_desc = false;
  product_desc = [];
  vmsd = none;
  props = [];
  is_input = false;
}
