-- ===== src/Usb/Lifecycle/Attach.antt =====
-- The handlers of the character device over the life of a keyboard.
use quic_keys.Common.{
  Bool, true, false, List, [], ◌∷◌, ◌++◌, Option, none, some, ◌≡◌, ◌≢◌, arith, if◌then◌else◌,
}
use quic_keys.Usb.{UsbNumbers}
use quic_keys.Usb.Lifecycle.{
  UsbDevice, CoreCall, error_set, serial_created, desc_inited, endpoint_got, input_bound,
  hid_inited, hid_freed, handlers_set, handlers_removed, HidLife, choose_desc, init_rest,
  usb_hid_initfn, usb_keyboard_realize, usb_hid_unrealize,
}

-- Whether handlers are attached after the calls; `none` where they are attached twice, or removed
-- without being attached.
pub attached : List CoreCall → Bool → Option Bool
attached [] b = some b
attached (handlers_set ∷ cs) b = if b then none else attached cs true
attached (handlers_removed ∷ cs) b = if b then attached cs false else none
attached (error_set n ∷ cs) b = attached cs b
attached (serial_created ∷ cs) b = attached cs b
attached (desc_inited ∷ cs) b = attached cs b
attached (endpoint_got ∷ cs) b = attached cs b
attached (input_bound ∷ cs) b = attached cs b
attached (hid_inited k ∷ cs) b = attached cs b
attached (hid_freed ∷ cs) b = attached cs b

-- A keyboard that is realized and unrealized, with any usb_version, with or without a character
-- device: handlers that were attached are removed, once, and none where none were; the device ends
-- as it began.
pub realize-unrealize :
    (q : HidLife) (u : UsbNumbers) (d : UsbDevice)
    → d.handlers ≡ false
    → d.kbd_chr_inited ≡ false
    → let (realized, before) = usb_keyboard_realize q u d in
      let (gone, after) = usb_hid_unrealize q realized in
      (attached (before ++ after) false ≡ some false)
      × (gone.handlers ≡ false)
      × (gone.kbd_chr_inited ≡ false)
unfolding usb_keyboard_realize usb_hid_initfn init_rest choose_desc usb_hid_unrealize attached
realize-unrealize q u d h i = ground arith

-- A usb_version that is neither 1 nor 2 is reported as an error, but the handlers of a connected
-- character device are attached all the same, to a device that has no descriptor and whose pointer to
-- the endpoint is what it was before.
pub failed_realize_attaches :
    (q : HidLife) (u : UsbNumbers) (d : UsbDevice)
    → d.usb_version ≢ 1
    → d.usb_version ≢ 2
    → d.chr_connected ≡ true
    → let (realized, calls) = usb_keyboard_realize q u d in
      (calls ≡ error_set d.usb_version ∷ handlers_set ∷ [])
      × (realized.handlers ≡ true)
      × (realized.usb_desc ≡ none)
      × (realized.intr ≡ d.intr)
unfolding usb_keyboard_realize usb_hid_initfn choose_desc
failed_realize_attaches q u d h1 h2 connected = ground arith
