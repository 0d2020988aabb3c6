-- ===== src/Usb/Lifecycle/Tables.antt =====
-- The descriptors that a realized device has.
use quic_keys.Common.{true, List, some, ◌≡◌, ◌⊎◌, refl, ◌∙◌, arith, inl, inr}
use quic_keys.Device.{Kind, mouse, tablet, keyboard}
use quic_keys.Usb.{UsbNumbers, UsbDesc}
use quic_keys.Usb.Devices.{desc_keyboard, desc_keyboard2}
use quic_keys.Usb.Layout.{usb1, usb2, usb1-fits, usb2-fits, fits}
use quic_keys.Usb.Lifecycle.{
  UsbDevice, CoreCall, HidLife, choose_desc, init_rest, usb_hid_initfn, usb_mouse_realize,
  usb_tablet_realize, usb_keyboard_realize,
}

unfoldable pub realize : HidLife → UsbNumbers → Kind → UsbDevice → UsbDevice × List CoreCall
realize q u mouse d = usb_mouse_realize q u d
realize q u tablet d = usb_tablet_realize q u d
realize q u keyboard d = usb_keyboard_realize q u d

module _ (q : HidLife) (u : UsbNumbers) (d : UsbDevice) where
  initfn-usb_desc :
      (k : Kind) (a b : UsbDesc)
      → (usb_hid_initfn q k a b d).0.usb_desc ≡ choose_desc d.usb_version a b
  unfolding usb_hid_initfn init_rest choose_desc
  initfn-usb_desc k a b = ground arith

  realize-usb_desc :
      (k : Kind) → (realize q u k d).0.usb_desc ≡ choose_desc d.usb_version (usb1 u k) (usb2 u k)
  unfolding realize usb_mouse_realize usb_tablet_realize usb_keyboard_realize usb1 usb2
  realize-usb_desc mouse = initfn-usb_desc mouse (usb1 u mouse) (usb2 u mouse)
  realize-usb_desc tablet = initfn-usb_desc tablet (usb1 u tablet) (usb2 u tablet)
  realize-usb_desc keyboard =
      ground (arith, initfn-usb_desc keyboard (desc_keyboard u) (desc_keyboard2 u))

-- Whichever device is realized, with usb_version 1 or 2, it gets a descriptor, and that fits the
-- report descriptor of its kind, as `Usb.Layout.fits` says: the lengths that are announced are true, and
-- the endpoints have room for an input report.
pub realized_fits :
    (q : HidLife) (u : UsbNumbers) (k : Kind) (d : UsbDevice)
    → (d.usb_version ≡ 1) ⊎ (d.usb_version ≡ 2)
    → (desc : UsbDesc) × ((realize q u k d).0.usb_desc ≡ some desc) × (fits k desc ≡ true)
unfolding choose_desc
realized_fits q u k d (inl e) = (usb1 u k, realize-usb_desc q u d k ∙ rw e refl, usb1-fits u k)
realized_fits q u k d (inr e) = (usb2 u k, realize-usb_desc q u d k ∙ rw e refl, usb2-fits u k)
