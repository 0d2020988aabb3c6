-- ===== src/Usb/Types.antt =====
-- The types that qemu/dev-hid.c registers: their classes, properties and migration descriptions, and
-- the names under which the devices are created. What QEMU's object model does with them is in
-- Types/Classes.
pub mod Classes
use quic_keys.Common.{ℕ, Bool, true, false, List, [], ◌∷◌, Option, none, some, Bytes, codes}
use quic_keys.Device.{HidState}
use quic_keys.Usb.{UsbNumbers}
use quic_keys.Usb.Requests.{
  Control, Packet, HidLayer, usb_hid_handle_reset, usb_hid_handle_control, usb_hid_handle_data,
}
use quic_keys.Usb.Lifecycle.{
  UsbDevice, CoreCall, HidLife, usb_tablet_realize, usb_mouse_realize, usb_keyboard_realize,
  usb_hid_unrealize, usb_ptr_post_load,
}

-- `DEFINE_PROP_UINT32` with its default, `DEFINE_PROP_STRING`, `DEFINE_PROP_CHR`.
pub data Property : Type 0 where
  uint32_property : Bytes → ℕ → Property
  string_property chr_property : Bytes → Property

pub data VmField : Type 0 where
  usb_device hid_pointer_device hid_keyboard_device : VmField

pub record VmState : Type 0 where
  pub name : Bytes
  pub version_id : ℕ
  pub minimum_version_id : ℕ
  pub post_load : Option (UsbDevice → UsbDevice)
  pub fields : List VmField

-- The fields of the class that the file sets; `none` and `false` stand for what it does not set.
pub record UsbClass : Type 0 where
  pub handle_reset : Option (HidState → HidState)
  pub handle_control : Option (Control → HidState → Packet → HidState × Packet)
  pub handle_data : Option (Bool → ℕ → ℕ → HidState → Packet → HidState × Packet)
  pub unrealize : Option (UsbDevice → UsbDevice × List CoreCall)
  pub realize : Option (UsbDevice → UsbDevice × List CoreCall)
  pub attaches_desc : Bool
  pub product_desc : Bytes
  pub vmsd : Option VmState
  pub props : List Property
  pub is_input : Bool

pub record TypeInfo : Type 0 where
  pub name : Bytes
  pub parent : Bytes
  pub is_abstract : Bool
  pub class_init : UsbClass → UsbClass

pub data Registration : Type 0 where
  type_registered : TypeInfo → Registration
  legacy_registered : Bytes → Bytes → Registration

-- `TYPE_USB_HID`
abbrev type_usb_hid : Bytes
type_usb_hid = codes "usb-hid"

-- `type_usb_device` is `TYPE_USB_DEVICE`, a macro of QEMU's headers.
module _ (l : HidLayer) (q : HidLife) (u : UsbNumbers) (type_usb_device : Bytes) where
  vmstate_usb_ptr : VmState
  vmstate_usb_ptr = record {
    name = codes "usb-ptr";
    version_id = 1;
    minimum_version_id = 1;
    post_load = some (usb_ptr_post_load q);
    fields = usb_device ∷ hid_pointer_device ∷ [];
  }

  vmstate_usb_kbd : VmState
  vmstate_usb_kbd = record {
    name = codes "usb-kbd";
    version_id = 1;
    minimum_version_id = 1;
    post_load = none;
    fields = usb_device ∷ hid_keyboard_device ∷ [];
  }

  usb_hid_class_initfn : UsbClass → UsbClass
  usb_hid_class_initfn uc = record uc {
    handle_reset = some (usb_hid_handle_reset l);
    handle_control = some (usb_hid_handle_control l);
    handle_data = some (usb_hid_handle_data l);
    unrealize = some (usb_hid_unrealize q);
    attaches_desc = true;
  }

  usb_hid_type_info : TypeInfo
  usb_hid_type_info = record {
    name = type_usb_hid;
    parent = type_usb_device;
    is_abstract = true;
    class_init = usb_hid_class_initfn;
  }

  usb_tablet_properties : List Property
  usb_tablet_properties =
      uint32_property (codes "usb_version") 2
      ∷ string_property (codes "display")
      ∷ uint32_property (codes "head") 0
      ∷ []

  usb_tablet_class_initfn : UsbClass → UsbClass
  usb_tablet_class_initfn uc = record uc {
    realize = some (usb_tablet_realize q u);
    product_desc = codes "QEMU USB Tablet";
    vmsd = some vmstate_usb_ptr;
    props = usb_tablet_properties;
    is_input = true;
  }

  usb_tablet_info : TypeInfo
  usb_tablet_info = record {
    name = codes "usb-tablet";
    parent = type_usb_hid;
    is_abstract = false;
    class_init = usb_tablet_class_initfn;
  }

  usb_mouse_properties : List Property
  usb_mouse_properties = uint32_property (codes "usb_version") 2 ∷ []

  usb_mouse_class_initfn : UsbClass → UsbClass
  usb_mouse_class_initfn uc = record uc {
    realize = some (usb_mouse_realize q u);
    product_desc = codes "QEMU USB Mouse";
    vmsd = some vmstate_usb_ptr;
    props = usb_mouse_properties;
    is_input = true;
  }

  usb_mouse_info : TypeInfo
  usb_mouse_info = record {
    name = codes "usb-mouse";
    parent = type_usb_hid;
    is_abstract = false;
    class_init = usb_mouse_class_initfn;
  }

  usb_keyboard_properties : List Property
  usb_keyboard_properties =
      uint32_property (codes "usb_version") 2
      ∷ string_property (codes "display")
      ∷ chr_property (codes "chardev")
      ∷ []

  usb_keyboard_class_initfn : UsbClass → UsbClass
  usb_keyboard_class_initfn uc = record uc {
    realize = some (usb_keyboard_realize q u);
    product_desc = codes "QEMU USB Keyboard";
    vmsd = some vmstate_usb_kbd;
    props = usb_keyboard_properties;
    is_input = true;
  }

  usb_keyboard_info : TypeInfo
  usb_keyboard_info = record {
    name = codes "usb-kbd";
    parent = type_usb_hid;
    is_abstract = false;
    class_init = usb_keyboard_class_initfn;
  }

  -- The calls in their order.
  pub usb_hid_register_types : List Registration
  usb_hid_register_types =
      type_registered usb_hid_type_info
      ∷ type_registered usb_tablet_info
      ∷ legacy_registered (codes "usb-tablet") (codes "tablet")
      ∷ type_registered usb_mouse_info
      ∷ legacy_registered (codes "usb-mouse") (codes "mouse")
      ∷ type_registered usb_keyboard_info
      ∷ legacy_registered (codes "usb-kbd") (codes "keyboard")
      ∷ []
