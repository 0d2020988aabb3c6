-- ===== src/Usb/Interfaces.antt =====
-- The interface descriptors of qemu/dev-hid.c. The one class descriptor in each is the HID
-- descriptor: its length, its type, the HID version, the country, the number of descriptors, their
-- type, and the length of the report descriptor. A field that the source leaves out is 0.
use quic_keys.Common.{bit_or, [], ◌∷◌}
use quic_keys.Usb.{UsbNumbers, UsbDescIface}

abbrev pub desc_iface_mouse : UsbNumbers → UsbDescIface
desc_iface_mouse u = record {
  interface_number = 0;
  num_endpoints = 1;
  interface_class = u.class_hid;
  interface_sub_class = 0x01;
  interface_protocol = 0x02;
  ndesc = 1;
  descs = (0x09 ∷ u.dt_hid ∷ 0x01 ∷ 0x00 ∷ 0x00 ∷ 0x01 ∷ u.dt_report ∷ 52 ∷ 0 ∷ []) ∷ [];
  eps =
      record {
        endpoint_address = bit_or u.dir_in 0x01;
        attributes = u.endpoint_xfer_int;
        max_packet_size = 4;
        interval = 0x0a;
      }
      ∷ [];
}

abbrev pub desc_iface_mouse2 : UsbNumbers → UsbDescIface
desc_iface_mouse2 u = record {
  interface_number = 0;
  num_endpoints = 1;
  interface_class = u.class_hid;
  interface_sub_class = 0x01;
  interface_protocol = 0x02;
  ndesc = 1;
  descs = (0x09 ∷ u.dt_hid ∷ 0x01 ∷ 0x00 ∷ 0x00 ∷ 0x01 ∷ u.dt_report ∷ 52 ∷ 0 ∷ []) ∷ [];
  eps =
      record {
        endpoint_address = bit_or u.dir_in 0x01;
        attributes = u.endpoint_xfer_int;
        max_packet_size = 4;
        interval = 7;
      }
      ∷ [];
}

abbrev pub desc_iface_tablet : UsbNumbers → UsbDescIface
desc_iface_tablet u = record {
  interface_number = 0;
  num_endpoints = 1;
  interface_class = u.class_hid;
  interface_sub_class = 0x00;
  interface_protocol = 0x00;
  ndesc = 1;
  descs = (0x09 ∷ u.dt_hid ∷ 0x01 ∷ 0x00 ∷ 0x00 ∷ 0x01 ∷ u.dt_report ∷ 74 ∷ 0 ∷ []) ∷ [];
  eps =
      record {
        endpoint_address = bit_or u.dir_in 0x01;
        attributes = u.endpoint_xfer_int;
        max_packet_size = 8;
        interval = 0x0a;
      }
      ∷ [];
}

abbrev pub desc_iface_tablet2 : UsbNumbers → UsbDescIface
desc_iface_tablet2 u = record {
  interface_number = 0;
  num_endpoints = 1;
  interface_class = u.class_hid;
  interface_sub_class = 0x00;
  interface_protocol = 0x00;
  ndesc = 1;
  descs = (0x09 ∷ u.dt_hid ∷ 0x01 ∷ 0x00 ∷ 0x00 ∷ 0x01 ∷ u.dt_report ∷ 74 ∷ 0 ∷ []) ∷ [];
  eps =
      record {
        endpoint_address = bit_or u.dir_in 0x01;
        attributes = u.endpoint_xfer_int;
        max_packet_size = 8;
        interval = 4;
      }
      ∷ [];
}

abbrev pub desc_iface_keyboard : UsbNumbers → UsbDescIface
desc_iface_keyboard u = record {
  interface_number = 0;
  num_endpoints = 1;
  interface_class = u.class_hid;
  interface_sub_class = 0x01;
  interface_protocol = 0x01;
  ndesc = 1;
  descs = (0x09 ∷ u.dt_hid ∷ 0x11 ∷ 0x01 ∷ 0x00 ∷ 0x01 ∷ u.dt_report ∷ 0x3f ∷ 0 ∷ []) ∷ [];
  eps =
      record {
        endpoint_address = bit_or u.dir_in 0x01;
        attributes = u.endpoint_xfer_int;
        max_packet_size = 8;
        interval = 0x0a;
      }
      ∷ [];
}

abbrev pub desc_iface_keyboard2 : UsbNumbers → UsbDescIface
desc_iface_keyboard2 u = record {
  interface_number = 0;
  num_endpoints = 1;
  interface_class = u.class_hid;
  interface_sub_class = 0x01;
  interface_protocol = 0x01;
  ndesc = 1;
  descs = (0x09 ∷ u.dt_hid ∷ 0x11 ∷ 0x01 ∷ 0x00 ∷ 0x01 ∷ u.dt_report ∷ 0x3f ∷ 0 ∷ []) ∷ [];
  eps =
      record {
        endpoint_address = bit_or u.dir_in 0x01;
        attributes = u.endpoint_xfer_int;
        max_packet_size = 8;
        interval = 7;
      }
      ∷ [];
}
