-- ===== src/Usb/Layout.antt =====
-- The tables of qemu/dev-hid.c against one another and against the reports of the daemon.
use quic_keys.Common.{
  ℕ, zero, ◌+◌, ◌-◌, ◌*◌, Bool, true, ◌&&◌, List, [], ◌∷◌, ◌++◌, none, some, ◌≡◌, refl, ◌∙◌, ap,
  arith, Bytes, ◌==◌, leb, length, take, replicate, length-append, length-replicate, length-take,
  take_all,
}
use quic_keys.Report.{report_of}
use quic_keys.Report.Layout.{report_of_bytes, length-report_of}
use quic_keys.Device.{Kind, mouse, tablet, keyboard}
use quic_keys.Wire.{byte_at}
use quic_keys.Usb.Items.{fields, input_bits, cut_input}
use quic_keys.Usb.Devices.{
  desc_mouse, desc_mouse2, desc_tablet, desc_tablet2, desc_keyboard, desc_keyboard2,
}
use quic_keys.Usb.Requests.{report_descriptor}
use quic_keys.Usb.{UsbNumbers, UsbDescEndpoint, UsbDescIface, UsbDescConfig, UsbDescDevice, UsbDesc}

-- The length of the report descriptor that the HID descriptors of an interface announce.
announced : List Bytes → ℕ
announced [] = 0
announced (d ∷ ds) = byte_at d 7 + 256 * byte_at d 8

all_fit : ℕ → List UsbDescEndpoint → Bool
all_fit bits [] = true
all_fit bits (e ∷ es) = leb bits (8 * e.max_packet_size) && all_fit bits es

iface_fits : Kind → UsbDescIface → Bool
iface_fits k i =
    announced i.descs == length (report_descriptor k)
    && i.ndesc == length i.descs
    && i.num_endpoints == length i.eps
    && all_fit (input_bits (fields (report_descriptor k))) i.eps

confs_fit : Kind → List UsbDescConfig → Bool
confs_fit k [] = true
confs_fit k (c ∷ cs) = iface_fits k c.ifs && confs_fit k cs

device_fits : Kind → UsbDescDevice → Bool
device_fits k dev = dev.num_configurations == length dev.confs && confs_fit k dev.confs

-- Each interface of a device, at full and at high speed, announces its lists' lengths and that of the
-- report descriptor that the device of this kind answers with, and its endpoints have room for an input report as
-- that descriptor lays it out.
pub fits : Kind → UsbDesc → Bool
unfolding device_fits
fits k desc =
    device_fits k desc.full && elim desc.high [ none ↦ true | some dev ↦ device_fits k dev ]

-- The tables for usb_version 1 and 2 of each kind.
module _ (u : UsbNumbers) where
  unfoldable pub usb1 : Kind → UsbDesc
  usb1 mouse = desc_mouse u
  usb1 tablet = desc_tablet u
  usb1 keyboard = desc_keyboard u

  unfoldable pub usb2 : Kind → UsbDesc
  usb2 mouse = desc_mouse2 u
  usb2 tablet = desc_tablet2 u
  usb2 keyboard = desc_keyboard2 u

  pub usb1-fits : (k : Kind) → fits k (usb1 k) ≡ true
  unfolding usb1 fits device_fits confs_fit iface_fits all_fit announced report_descriptor fields
      input_bits
  usb1-fits mouse = refl
  usb1-fits tablet = refl
  usb1-fits keyboard = refl

  pub usb2-fits : (k : Kind) → fits k (usb2 k) ≡ true
  unfolding usb2 fits device_fits confs_fit iface_fits all_fit announced report_descriptor fields
      input_bits
  usb2-fits mouse = refl
  usb2-fits tablet = refl
  usb2-fits keyboard = refl

module _ (m : ℕ) (six : List ℕ) (full : length six ≡ 6) where
  cut_report :
      cut_input (fields (report_descriptor keyboard)) (m ∷ 0 ∷ six) ≡ (m ∷ []) ∷ (0 ∷ []) ∷ six ∷ []
  unfolding fields cut_input report_descriptor
  cut_report =
      ap (λ (xs : List ℕ). (m ∷ []) ∷ (0 ∷ []) ∷ xs ∷ []) (take_all 6 six (omega (arith, full)))

padded :
    (pressed : List ℕ) → length (take 6 pressed ++ replicate (6 - length (take 6 pressed)) 0) ≡ 6
padded pressed =
    let six = take 6 pressed in
    omega (
      arith,
      length-append six (replicate (6 - length six) 0),
      length-replicate (6 - length six) zero,
      length-take 6 pressed,
    )

keyboard_bits : input_bits (fields (report_descriptor keyboard)) ≡ 64
unfolding fields input_bits report_descriptor
keyboard_bits = refl

-- The input fields that the keyboard's report descriptor declares cut a report of the daemon into the
-- modifiers, the reserved byte, and the first six pressed usages padded with zeros, and there is
-- nothing behind them.
pub keyboard_layout :
    (pressed : List ℕ) (modifiers : ℕ)
    → let laid = fields (report_descriptor keyboard) in
      let bytes = (report_of pressed modifiers).bytes in
      (cut_input laid bytes
        ≡ (modifiers ∷ [])
          ∷ (0 ∷ [])
          ∷ (take 6 pressed ++ replicate (6 - length (take 6 pressed)) 0)
          ∷ [])
      × (input_bits laid ≡ 8 * length bytes)
keyboard_layout pressed modifiers =
    let keys = take 6 pressed ++ replicate (6 - length (take 6 pressed)) 0 in
    (
      ap (cut_input (fields (report_descriptor keyboard))) (report_of_bytes pressed modifiers)
          ∙ cut_report modifiers keys (padded pressed),
      keyboard_bits ∙ omega (arith, length-report_of pressed modifiers),
    )
