-- ===== src/Usb/Requests/Answers.antt =====
-- What the guest gets for its requests: which are refused, what is read back, and what the endpoint
-- gives after a report from the socket.
use quic_keys.Common.{
  ℕ, ◌/◌, ◌%◌, ◌^◌, Bool, true, false, not, [], ◌∷◌, ◌≡◌, refl, ◌∙◌, ap, arith, Bytes, ◌==◌,
  if◌then◌else◌,
}
use quic_keys.Device.{mouse, tablet, Kind, keyboard, HidState, usb_hid_kbd_apply_report}
use quic_keys.Device.Apply.{apply_report-quiet}
use quic_keys.Usb.Requests.{
  Request, interface_get_descriptor, hid_get_report, hid_set_report, hid_get_protocol,
  hid_set_protocol, hid_get_idle, hid_set_idle, other_request, Control, Packet, success, nak, stall,
  HidLayer, answer, fail, is_pointer, lacks_protocol, poll, activate_pointer, hid_request,
  usb_hid_handle_control, usb_hid_handle_data,
}

-- Only a keyboard takes a report, for its lights; only the kinds of a boot interface, keyboard and mouse, have a
-- protocol.
takes_no_report : Kind → Bool
takes_no_report mouse = true
takes_no_report tablet = true
takes_no_report keyboard = false

has_no_protocol : Kind → Bool
has_no_protocol mouse = false
has_no_protocol tablet = true
has_no_protocol keyboard = false

takes_no_report-is_pointer : (k : Kind) → is_pointer k ≡ takes_no_report k
unfolding is_pointer takes_no_report
takes_no_report-is_pointer mouse = refl
takes_no_report-is_pointer tablet = refl
takes_no_report-is_pointer keyboard = refl

has_no_protocol-lacks_protocol : (k : Kind) → lacks_protocol k ≡ has_no_protocol k
unfolding lacks_protocol has_no_protocol
has_no_protocol-lacks_protocol mouse = refl
has_no_protocol-lacks_protocol tablet = refl
has_no_protocol-lacks_protocol keyboard = refl

-- The requests that a device of each kind does not know.
pub rejects : Kind → Control → Bool
rejects k c = elim c.request [
  | interface_get_descriptor ↦ not (c.value / 2 ^ 8 == 0x22)
  | hid_set_report ↦ takes_no_report k
  | hid_get_protocol ↦ has_no_protocol k
  | hid_set_protocol ↦ has_no_protocol k
  | other_request ↦ true
  | _ ↦ false
]

module _ (q : HidLayer) (p : Packet) (fresh : p.status ≡ success) where
  request-status :
      (r : Request) (c : Control) (hs : HidState)
      → c.request ≡ r
      → ((hid_request q r c hs p).1.status ≡ (if rejects hs.kind c then stall else success))
        × ((if rejects hs.kind c then (hid_request q r c hs p).0 else hs) ≡ hs)
  unfolding rejects hid_request answer fail
  request-status interface_get_descriptor c hs e = ground arith
  request-status hid_get_report c hs e = ground arith
  request-status hid_set_report c hs e = ground (arith, takes_no_report-is_pointer hs.kind)
  request-status hid_get_protocol c hs e = ground (arith, has_no_protocol-lacks_protocol hs.kind)
  request-status hid_set_protocol c hs e = ground (arith, has_no_protocol-lacks_protocol hs.kind)
  request-status hid_get_idle c hs e = ground arith
  request-status hid_set_idle c hs e = ground arith
  request-status other_request c hs e = ground arith

-- A control request that the descriptor layer leaves to the device, with a packet in good order, is
-- refused exactly if the device's kind does not know it, and then leaves the device as it is: no kind knows a
-- descriptor but that of the report, or a request that is none of the HID class; a mouse and a tablet do not
-- know SET_REPORT, and a tablet does not know GET_PROTOCOL and SET_PROTOCOL.
pub handle_control-status :
    (q : HidLayer) (c : Control) (hs : HidState) (p : Packet)
    → (q.usb_desc_handle_control c p).0 ≡ false
    → (q.usb_desc_handle_control c p).1.status ≡ success
    → let (hs', p') = usb_hid_handle_control q c hs p in
      (p'.status ≡ (if rejects hs.kind c then stall else success))
      × ((if rejects hs.kind c then hs' else hs) ≡ hs)
unfolding usb_hid_handle_control
handle_control-status q c hs p left fresh =
    rw left (request-status q (q.usb_desc_handle_control c p).1 fresh c.request c hs refl)

-- The protocol that the guest sets is the one that it gets, as a byte, on a keyboard or a mouse.
pub set-get_protocol :
    (q : HidLayer) (set_it get_it : Control) (hs : HidState) (p p' : Packet)
    → lacks_protocol hs.kind ≡ false
    → set_it.request ≡ hid_set_protocol
    → get_it.request ≡ hid_get_protocol
    → (q.usb_desc_handle_control set_it p).0 ≡ false
    → (q.usb_desc_handle_control get_it p').0 ≡ false
    → let hs' = (usb_hid_handle_control q set_it hs p).0 in
      (usb_hid_handle_control q get_it hs' p').1
      ≡ answer ((set_it.value % 256) ∷ []) (q.usb_desc_handle_control get_it p').1
unfolding usb_hid_handle_control hid_request
set-get_protocol q set_it get_it hs p p' known s g left left' = ground arith

-- QEMU's HID layer has an event for the endpoint if its queue is not empty or an idle report is
-- due. A report from the socket clears both, so the guest's next poll of the endpoint is refused
-- with NAK, and the keys of the report do not reach it there.
pub report_not_announced :
    (q : HidLayer) (key_size size : ℕ) (rep : Bytes) (hs : HidState) (p : Packet)
    → hs.kind ≡ keyboard
    → ((hs' : HidState) → hs'.n ≡ 0 → hs'.idle_pending ≡ false → q.hid_has_events hs' ≡ false)
    → usb_hid_handle_data q true 1 size (usb_hid_kbd_apply_report key_size rep hs) p
      ≡ (usb_hid_kbd_apply_report key_size rep hs, record p { status = nak })
unfolding usb_hid_handle_data activate_pointer is_pointer
report_not_announced q key_size size rep hs p kbd quiet =
    let (k, n, idle) = apply_report-quiet key_size rep hs in
    let none_due = quiet (usb_hid_kbd_apply_report key_size rep hs) n idle in
    let plain : is_pointer (usb_hid_kbd_apply_report key_size rep hs).kind ≡ false =
      ap is_pointer (k ∙ kbd) in
    rw (plain, none_due)

-- GET_REPORT on a keyboard polls it.
pub get_report-keyboard :
    (q : HidLayer) (c : Control) (hs : HidState) (p : Packet)
    → is_pointer hs.kind ≡ false
    → c.request ≡ hid_get_report
    → (q.usb_desc_handle_control c p).0 ≡ false
    → (usb_hid_handle_control q c hs p).1
      ≡ answer (q.hid_keyboard_poll c.max_length hs).1 (q.usb_desc_handle_control c p).1
unfolding usb_hid_handle_control hid_request poll
get_report-keyboard q c hs p plain get left = rw (left, get, hid_request) (rw plain)
