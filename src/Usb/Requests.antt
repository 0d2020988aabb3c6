-- ===== src/Usb/Requests.antt =====
-- The requests of the guest: `usb_hid_handle_reset`, `usb_hid_handle_control` and
-- `usb_hid_handle_data` of qemu/dev-hid.c, over QEMU's HID layer.
pub mod Answers
use quic_keys.Common.{
  ℕ, ◌/◌, ◌%◌, ◌^◌, Bool, true, false, ◌||◌, [], ◌∷◌, ◌++◌, Bytes, ◌==◌, if◌then◌else◌, length,
  drop,
}
use quic_keys.Device.{Kind, mouse, tablet, keyboard, HidState}
use quic_keys.Usb.ReportDescriptors.{
  qemu_mouse_hid_report_descriptor, qemu_tablet_hid_report_descriptor,
  qemu_keyboard_hid_report_descriptor,
}

-- The cases of the switch over `request`; the numbers are macros of QEMU's headers.
pub data Request : Type 0 where
  interface_get_descriptor hid_get_report hid_set_report hid_get_protocol : Request
  hid_set_protocol hid_get_idle hid_set_idle other_request : Request

pub record Control : Type 0 where
  pub request : Request
  pub value : ℕ
  pub index : ℕ
  pub max_length : ℕ

-- `p->status`, where `success` is the status that the packet comes with.
pub data Status : Type 0 where
  success nak stall : Status

-- `buffer` is what `data` points to.
pub record Packet : Type 0 where
  pub status : Status
  pub actual_length : ℕ
  pub buffer : Bytes

-- The functions of hw/input/hid.c and of QEMU's descriptor layer. A poll gives the new state and the
-- bytes that it writes, a write the number that it returns.
pub record HidLayer : Type 0 where
  pub usb_desc_handle_control : Control → Packet → Bool × Packet
  pub hid_reset : HidState → HidState
  pub hid_pointer_poll : ℕ → HidState → HidState × Bytes
  pub hid_keyboard_poll : ℕ → HidState → HidState × Bytes
  pub hid_keyboard_write : ℕ → Bytes → HidState → HidState × ℕ
  pub hid_set_next_idle : HidState → HidState
  pub hid_pointer_activate : HidState → HidState
  pub hid_has_events : HidState → Bool

-- `memcpy(data, src, sizeof(src))`
pub memcpy : Bytes → Bytes → Bytes
memcpy src dest = src ++ drop (length src) dest

-- Bytes written to the front of `data`, and their number as the actual length.
pub answer : Bytes → Packet → Packet
answer bytes p = record p { actual_length = length bytes; buffer = memcpy bytes p.buffer }

pub fail : Packet → Packet
fail p = record p { status = stall }

unfoldable pub report_descriptor : Kind → Bytes
report_descriptor mouse = qemu_mouse_hid_report_descriptor
report_descriptor tablet = qemu_tablet_hid_report_descriptor
report_descriptor keyboard = qemu_keyboard_hid_report_descriptor

unfoldable pub is_pointer : Kind → Bool
is_pointer keyboard = false
is_pointer _ = true

-- `hs->kind != HID_KEYBOARD && hs->kind != HID_MOUSE`
unfoldable pub lacks_protocol : Kind → Bool
lacks_protocol tablet = true
lacks_protocol _ = false

module _ (q : HidLayer) where
  pub usb_hid_handle_reset : HidState → HidState
  usb_hid_handle_reset hs = q.hid_reset hs

  -- The poll of the device's kind.
  poll : ℕ → HidState → HidState × Bytes
  poll n hs = if is_pointer hs.kind then q.hid_pointer_poll n hs else q.hid_keyboard_poll n hs

  activate_pointer : HidState → HidState
  activate_pointer hs = if is_pointer hs.kind then q.hid_pointer_activate hs else hs

  -- `switch (request)`
  hid_request : Request → Control → HidState → Packet → HidState × Packet
  hid_request interface_get_descriptor c hs p =
      (hs, if c.value / 2 ^ 8 == 0x22 then answer (report_descriptor hs.kind) p else fail p)
  hid_request hid_get_report c hs p =
      let (hs', bytes) = poll c.max_length hs in (hs', answer bytes p)
  hid_request hid_set_report c hs p =
      let (hs', n) = q.hid_keyboard_write c.max_length p.buffer hs in
      if is_pointer hs.kind then (hs, fail p) else (hs', record p { actual_length = n })
  hid_request hid_get_protocol c hs p =
      if lacks_protocol hs.kind then (hs, fail p) else (hs, answer ((hs.protocol % 256) ∷ []) p)
  hid_request hid_set_protocol c hs p =
      if lacks_protocol hs.kind then (hs, fail p) else (record hs { protocol = c.value }, p)
  hid_request hid_get_idle c hs p = (hs, answer ((hs.idle % 256) ∷ []) p)
  hid_request hid_set_idle c hs p =
      (activate_pointer (q.hid_set_next_idle (record hs { idle = c.value / 2 ^ 8 % 256 })), p)
  hid_request other_request c hs p = (hs, fail p)

  pub usb_hid_handle_control : Control → HidState → Packet → HidState × Packet
  usb_hid_handle_control c hs p =
      let (handled, p') = q.usb_desc_handle_control c p in
      if handled then (hs, p') else hid_request c.request c hs p'

  -- A packet on an endpoint: its token is IN or another one, `nr` is the endpoint's number, and
  -- `size` the room in the packet. `usb_packet_copy` gives
  -- what was polled to the guest, in `buffer`.
  pub usb_hid_handle_data : Bool → ℕ → ℕ → HidState → Packet → HidState × Packet
  usb_hid_handle_data token_in nr size hs p =
      let active = activate_pointer hs in
      let (polled, bytes) = poll size (q.hid_set_next_idle active) in
      if token_in
      then if nr == 1
        then if q.hid_has_events active
          then (polled, answer bytes p)
          else (active, record p { status = nak })
        else (hs, fail p)
      else (hs, fail p)
