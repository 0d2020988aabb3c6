-- ===== src/Usb/Lifecycle.antt =====
-- The life of a device: `usb_hid_initfn`, the three realize functions, `usb_hid_unrealize`, and what
-- a migration carries over, of qemu/dev-hid.c.
pub mod Attach
pub mod Migration
pub mod Tables
use quic_keys.Common.{
  ℕ, Bool, true, false, ◌&&◌, List, [], ◌∷◌, ◌++◌, Option, none, some, Bytes, ◌==◌, if◌then◌else◌,
}
use quic_keys.Device.{Kind, mouse, tablet, keyboard, HidState, UsbHidState, empty_sock_buf}
use quic_keys.Usb.{UsbNumbers, UsbDesc}
use quic_keys.Usb.Devices.{
  desc_mouse, desc_mouse2, desc_tablet, desc_tablet2, desc_keyboard, desc_keyboard2,
}

-- `USBHIDState` with the parts of its `USBDevice` that matter here. `intr` says whether the pointer
-- to the endpoint was set, `chr_connected` whether a character device was given, and `handlers`
-- whether its handlers are attached.
pub record UsbDevice : Type 0 where
  pub us : UsbHidState
  pub usb_version : ℕ
  pub usb_desc : Option UsbDesc
  pub intr : Bool
  pub has_display : Bool
  pub remote_wakeup : Bool
  pub chr_connected : Bool
  pub handlers : Bool
  pub kbd_chr_inited : Bool

-- The calls of QEMU's core.
pub data CoreCall : Type 0 where
  error_set : ℕ → CoreCall
  serial_created desc_inited endpoint_got input_bound : CoreCall
  hid_inited : Kind → CoreCall
  hid_freed handlers_set handlers_removed : CoreCall

-- What QEMU's HID layer does: `hid_init` also says whether there is an input handler (`hid.s`).
pub record HidLife : Type 0 where
  pub hid_init : Kind → HidState → HidState × Bool
  pub hid_free : HidState → HidState
  pub hid_pointer_activate : HidState → HidState

-- `switch (us->usb_version)`
pub choose_desc : ℕ → UsbDesc → UsbDesc → Option UsbDesc
choose_desc version usb1 usb2 =
    if version == 1 then some usb1 else if version == 2 then some usb2 else none

module _ (q : HidLife) where
  -- The part behind the test of the descriptor.
  init_rest : Kind → UsbDesc → UsbDevice → UsbDevice × List CoreCall
  init_rest kind desc d =
      let (hs, has_input) = q.hid_init kind d.us.hid in
      (
        record d { us = record (d.us) { hid = hs }; usb_desc = some desc; intr = true },
        serial_created
            ∷ desc_inited
            ∷ endpoint_got
            ∷ hid_inited kind
            ∷ (if d.has_display && has_input then input_bound ∷ [] else []),
      )

  pub usb_hid_initfn : Kind → UsbDesc → UsbDesc → UsbDevice → UsbDevice × List CoreCall
  usb_hid_initfn kind usb1 usb2 d = elim (choose_desc d.usb_version usb1 usb2) [
    | none ↦ (record d { usb_desc = none }, error_set d.usb_version ∷ [])
    | some desc ↦ init_rest kind desc d
  ]

  pub usb_tablet_realize : UsbNumbers → UsbDevice → UsbDevice × List CoreCall
  usb_tablet_realize u d = usb_hid_initfn tablet (desc_tablet u) (desc_tablet2 u) d

  pub usb_mouse_realize : UsbNumbers → UsbDevice → UsbDevice × List CoreCall
  usb_mouse_realize u d = usb_hid_initfn mouse (desc_mouse u) (desc_mouse2 u) d

  -- It goes on whether or not the function before it failed.
  pub usb_keyboard_realize : UsbNumbers → UsbDevice → UsbDevice × List CoreCall
  usb_keyboard_realize u d =
      let (d', calls) = usb_hid_initfn keyboard (desc_keyboard u) (desc_keyboard2 u) d in
      let emptied = record d' { us = empty_sock_buf d'.us } in
      if d'.chr_connected
      then (record emptied { handlers = true; kbd_chr_inited = true }, calls ++ handlers_set ∷ [])
      else (emptied, calls)

  pub usb_hid_unrealize : UsbDevice → UsbDevice × List CoreCall
  usb_hid_unrealize d =
      let freed = record d { us = record (d.us) { hid = q.hid_free d.us.hid } } in
      if d.kbd_chr_inited
      then (
        record freed { handlers = false; kbd_chr_inited = false },
        hid_freed ∷ handlers_removed ∷ [],
      )
      else (freed, hid_freed ∷ [])

  -- Of the mouse and the tablet, after a migration.
  pub usb_ptr_post_load : UsbDevice → UsbDevice
  usb_ptr_post_load d =
      if d.remote_wakeup
      then record d { us = record (d.us) { hid = q.hid_pointer_activate d.us.hid } }
      else d

-- `vmstate_usb_kbd`: a migration carries the USB device and the HID state over. `transfer` is what QEMU's
-- description of a HID keyboard sends of one state into another; the socket's buffer and its length
-- stay those of the device that was realized on the other side.
pub migrate_kbd : (HidState → HidState → HidState) → UsbDevice → UsbDevice → UsbDevice
migrate_kbd transfer from to = record to {
  us = record (to.us) { hid = transfer from.us.hid to.us.hid };
  remote_wakeup = from.remote_wakeup;
}
