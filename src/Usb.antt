-- ===== src/Usb.antt =====
-- The USB side of qemu/dev-hid.c: the descriptors of the three devices, the requests of the guest,
-- and the life of a device. What QEMU's headers and its other files define (numbers of the USB
-- standard, the HID layer, the descriptor layer) is an argument.
pub mod Interfaces
pub mod Devices
pub mod ReportDescriptors
pub mod Items
pub mod Layout
pub mod Requests
pub mod Lifecycle
pub mod Types
use quic_keys.Common.{ℕ, Bool, List, Option, Bytes, codes}

-- The macros of the USB standard that the descriptors use.
pub record UsbNumbers : Type 0 where
  pub class_hid : ℕ
  pub dt_hid : ℕ
  pub dt_report : ℕ
  pub dir_in : ℕ
  pub endpoint_xfer_int : ℕ
  pub cfg_att_one : ℕ
  pub cfg_att_wakeup : ℕ

-- The `enum` of string indices, from 1 on.
pub data StringId : Type 0 where
  str_manufacturer str_product_mouse str_product_tablet str_product_keyboard : StringId
  str_serial_compat str_config_mouse str_config_tablet str_config_keyboard : StringId
  str_serial_mouse str_serial_tablet str_serial_keyboard : StringId

pub desc_strings : StringId → Bytes
desc_strings str_manufacturer = codes "QEMU"
desc_strings str_product_mouse = codes "QEMU USB Mouse"
desc_strings str_product_tablet = codes "QEMU USB Tablet"
desc_strings str_product_keyboard = codes "QEMU USB Keyboard"
desc_strings str_serial_compat = codes "42"
desc_strings str_config_mouse = codes "HID Mouse"
desc_strings str_config_tablet = codes "HID Tablet"
desc_strings str_config_keyboard = codes "HID Keyboard"
desc_strings str_serial_mouse = codes "89126"
desc_strings str_serial_tablet = codes "28754"
desc_strings str_serial_keyboard = codes "68284"

pub record UsbDescEndpoint : Type 0 where
  pub endpoint_address : ℕ
  pub attributes : ℕ
  pub max_packet_size : ℕ
  pub interval : ℕ

pub record UsbDescIface : Type 0 where
  pub interface_number : ℕ
  pub num_endpoints : ℕ
  pub interface_class : ℕ
  pub interface_sub_class : ℕ
  pub interface_protocol : ℕ
  pub ndesc : ℕ
  pub descs : List Bytes
  pub eps : List UsbDescEndpoint

pub record UsbDescConfig : Type 0 where
  pub num_interfaces : ℕ
  pub configuration_value : ℕ
  pub configuration : StringId
  pub attributes : ℕ
  pub max_power : ℕ
  pub nif : ℕ
  pub ifs : UsbDescIface

pub record UsbDescDevice : Type 0 where
  pub bcd_usb : ℕ
  pub max_packet_size0 : ℕ
  pub num_configurations : ℕ
  pub confs : List UsbDescConfig

pub record UsbDescId : Type 0 where
  pub vendor : ℕ
  pub product : ℕ
  pub bcd_device : ℕ
  pub manufacturer : StringId
  pub product_name : StringId
  pub serial_number : StringId

-- `.full` and `.high`; `.str` is `desc_strings` and `.msos` the same in all.
pub record UsbDesc : Type 0 where
  pub id : UsbDescId
  pub full : UsbDescDevice
  pub high : Option UsbDescDevice
  pub selective_suspend : Bool
