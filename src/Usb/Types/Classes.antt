-- ===== src/Usb/Types/Classes.antt =====
-- The device that a legacy name stands for.
use quic_keys.Common.{
  ℕ, Bool, List, [], ◌∷◌, Option, none, some, Bytes, codes, same_bytes, if◌then◌else◌, ◌≡◌, refl,
}
use quic_keys.Device.{Kind, mouse, tablet, keyboard, HidState}
use quic_keys.Usb.{UsbNumbers, desc_strings}
use quic_keys.Usb.Layout.{usb1, usb2}
use quic_keys.Usb.Requests.{
  Control, Packet, HidLayer, usb_hid_handle_reset, usb_hid_handle_control, usb_hid_handle_data,
  is_pointer,
}
use quic_keys.Usb.Lifecycle.{UsbDevice, CoreCall, HidLife, usb_hid_unrealize, usb_ptr_post_load}
use quic_keys.Usb.Lifecycle.Tables.{realize}
use quic_keys.Usb.Types.{
  Property, uint32_property, string_property, chr_property, UsbClass, TypeInfo, Registration,
  type_registered, legacy_registered, vmstate_usb_ptr, vmstate_usb_kbd, usb_hid_class_initfn,
  usb_hid_type_info, usb_tablet_class_initfn, usb_tablet_info, usb_mouse_class_initfn,
  usb_mouse_info, usb_keyboard_class_initfn, usb_keyboard_info, usb_hid_register_types,
  usb_tablet_properties, usb_mouse_properties, usb_keyboard_properties,
}

find_type : Bytes → List Registration → Option TypeInfo
find_type n [] = none
find_type n (type_registered i ∷ rs) = if same_bytes n i.name then some i else find_type n rs
find_type n (legacy_registered a b ∷ rs) = find_type n rs

-- The type that a legacy name creates.
find_legacy : Bytes → List Registration → Option Bytes
find_legacy n [] = none
find_legacy n (type_registered i ∷ rs) = find_legacy n rs
find_legacy n (legacy_registered type_name alias ∷ rs) =
    if same_bytes n alias then some type_name else find_legacy n rs

-- A class is its parent's, then changed by its own `class_init`.
inherit : List Registration → UsbClass → TypeInfo → Option UsbClass
inherit rs base i = elim (find_type i.parent rs) [
  | none ↦ none
  | some p ↦ some (i.class_init (p.class_init base))
]

-- The class of the device that a legacy name creates, over the class of `TYPE_USB_DEVICE`; an
-- abstract type cannot be created.
pub class_of : List Registration → UsbClass → Bytes → Option UsbClass
unfolding find_type find_legacy inherit
class_of rs base alias = elim (find_legacy alias rs) [
  | none ↦ none
  | some n ↦ elim (find_type n rs) [
    | none ↦ none
    | some i ↦ if i.is_abstract then none else inherit rs base i
  ]
]

pub legacy_name : Kind → Bytes
legacy_name mouse = codes "mouse"
legacy_name tablet = codes "tablet"
legacy_name keyboard = codes "keyboard"

pub default_version : List Property → Option ℕ
default_version [] = none
default_version (uint32_property n v ∷ ps) =
    if same_bytes n (codes "usb_version") then some v else default_version ps
default_version (string_property n ∷ ps) = default_version ps
default_version (chr_property n ∷ ps) = default_version ps

pub post_load_of : UsbClass → Option (UsbDevice → UsbDevice)
post_load_of c = elim c.vmsd [ none ↦ none | some vm ↦ vm.post_load ]

-- What matters of a class.
pub record View : Type 0 where
  pub realizes : Option (UsbDevice → UsbDevice × List CoreCall)
  pub unrealizes : Option (UsbDevice → UsbDevice × List CoreCall)
  pub resets : Option (HidState → HidState)
  pub controls : Option (Control → HidState → Packet → HidState × Packet)
  pub answers : Option (Bool → ℕ → ℕ → HidState → Packet → HidState × Packet)
  pub product : Bytes
  pub version : Option ℕ
  pub loads : Option (UsbDevice → UsbDevice)

pub view : UsbClass → View
unfolding default_version post_load_of
view c = record {
  realizes = c.realize;
  unrealizes = c.unrealize;
  resets = c.handle_reset;
  controls = c.handle_control;
  answers = c.handle_data;
  product = c.product_desc;
  version = default_version c.props;
  loads = post_load_of c;
}

-- The class of a kind: its realize function and what all kinds share, a product name, usb_version 2 by
-- default, and the pointer's step after a migration.
pub expected : HidLayer → HidLife → UsbNumbers → Kind → Bytes → View
expected l q u k name = record {
  realizes = some (realize q u k);
  unrealizes = some (usb_hid_unrealize q);
  resets = some (usb_hid_handle_reset l);
  controls = some (usb_hid_handle_control l);
  answers = some (usb_hid_handle_data l);
  product = name;
  version = some 2;
  loads = if is_pointer k then some (usb_ptr_post_load q) else none;
}

module _ (l : HidLayer) (q : HidLife) (u : UsbNumbers) (d : Bytes) (base : UsbClass) where
  -- Each legacy name creates a device of its kind: over any class of `TYPE_USB_DEVICE`, its class is the
  -- expected one, with the product name that its USB descriptors give to the guest, the same for both
  -- versions.
  pub class_of-legacy_name :
      (k : Kind)
      → (c : UsbClass) × (class_of (usb_hid_register_types l q u d) base (legacy_name k) ≡ some c)
        × (view c ≡ expected l q u k (desc_strings (usb1 u k).id.product_name))
        × ((usb1 u k).id.product_name ≡ (usb2 u k).id.product_name)
  unfolding class_of usb_hid_register_types usb_hid_type_info usb_tablet_info usb_mouse_info
      usb_keyboard_info usb_hid_class_initfn usb_tablet_class_initfn usb_mouse_class_initfn
      usb_keyboard_class_initfn legacy_name same_bytes view expected usb1 usb2 desc_strings realize
      is_pointer vmstate_usb_ptr vmstate_usb_kbd usb_tablet_properties usb_mouse_properties
      usb_keyboard_properties
  class_of-legacy_name mouse =
      (usb_mouse_class_initfn l q u d (usb_hid_class_initfn l q u d base), refl, refl, refl)
  class_of-legacy_name tablet =
      (usb_tablet_class_initfn l q u d (usb_hid_class_initfn l q u d base), refl, refl, refl)
  class_of-legacy_name keyboard =
      (usb_keyboard_class_initfn l q u d (usb_hid_class_initfn l q u d base), refl, refl, refl)
