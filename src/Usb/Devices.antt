-- ===== src/Usb/Devices.antt =====
-- The device descriptors of qemu/dev-hid.c and the six `USBDesc` over them: those that end in 2 are for
-- usb_version 2, which adds the high speed.
use quic_keys.Common.{bit_or, true, [], ◌∷◌, none, some}
use quic_keys.Usb.Interfaces.{
  desc_iface_mouse, desc_iface_mouse2, desc_iface_tablet, desc_iface_tablet2, desc_iface_keyboard,
  desc_iface_keyboard2,
}
use quic_keys.Usb.{
  UsbNumbers, UsbDescDevice, UsbDesc, str_manufacturer, str_product_mouse, str_product_tablet,
  str_product_keyboard, str_config_mouse, str_config_tablet, str_config_keyboard, str_serial_mouse,
  str_serial_tablet, str_serial_keyboard,
}

abbrev pub desc_device_mouse : UsbNumbers → UsbDescDevice
desc_device_mouse u = record {
  bcd_usb = 0x0100;
  max_packet_size0 = 8;
  num_configurations = 1;
  confs =
      record {
        num_interfaces = 1;
        configuration_value = 1;
        configuration = str_config_mouse;
        attributes = bit_or u.cfg_att_one u.cfg_att_wakeup;
        max_power = 50;
        nif = 1;
        ifs = desc_iface_mouse u;
      }
      ∷ [];
}

abbrev pub desc_device_mouse2 : UsbNumbers → UsbDescDevice
desc_device_mouse2 u = record {
  bcd_usb = 0x0200;
  max_packet_size0 = 64;
  num_configurations = 1;
  confs =
      record {
        num_interfaces = 1;
        configuration_value = 1;
        configuration = str_config_mouse;
        attributes = bit_or u.cfg_att_one u.cfg_att_wakeup;
        max_power = 50;
        nif = 1;
        ifs = desc_iface_mouse2 u;
      }
      ∷ [];
}

abbrev pub desc_device_tablet : UsbNumbers → UsbDescDevice
desc_device_tablet u = record {
  bcd_usb = 0x0100;
  max_packet_size0 = 8;
  num_configurations = 1;
  confs =
      record {
        num_interfaces = 1;
        configuration_value = 1;
        configuration = str_config_tablet;
        attributes = bit_or u.cfg_att_one u.cfg_att_wakeup;
        max_power = 50;
        nif = 1;
        ifs = desc_iface_tablet u;
      }
      ∷ [];
}

abbrev pub desc_device_tablet2 : UsbNumbers → UsbDescDevice
desc_device_tablet2 u = record {
  bcd_usb = 0x0200;
  max_packet_size0 = 64;
  num_configurations = 1;
  confs =
      record {
        num_interfaces = 1;
        configuration_value = 1;
        configuration = str_config_tablet;
        attributes = bit_or u.cfg_att_one u.cfg_att_wakeup;
        max_power = 50;
        nif = 1;
        ifs = desc_iface_tablet2 u;
      }
      ∷ [];
}

abbrev pub desc_device_keyboard : UsbNumbers → UsbDescDevice
desc_device_keyboard u = record {
  bcd_usb = 0x0100;
  max_packet_size0 = 8;
  num_configurations = 1;
  confs =
      record {
        num_interfaces = 1;
        configuration_value = 1;
        configuration = str_config_keyboard;
        attributes = bit_or u.cfg_att_one u.cfg_att_wakeup;
        max_power = 50;
        nif = 1;
        ifs = desc_iface_keyboard u;
      }
      ∷ [];
}

abbrev pub desc_device_keyboard2 : UsbNumbers → UsbDescDevice
desc_device_keyboard2 u = record {
  bcd_usb = 0x0200;
  max_packet_size0 = 64;
  num_configurations = 1;
  confs =
      record {
        num_interfaces = 1;
        configuration_value = 1;
        configuration = str_config_keyboard;
        attributes = bit_or u.cfg_att_one u.cfg_att_wakeup;
        max_power = 50;
        nif = 1;
        ifs = desc_iface_keyboard2 u;
      }
      ∷ [];
}

abbrev pub desc_mouse : UsbNumbers → UsbDesc
desc_mouse u = record {
  id = record {
    vendor = 0x0627;
    product = 0x0001;
    bcd_device = 0;
    manufacturer = str_manufacturer;
    product_name = str_product_mouse;
    serial_number = str_serial_mouse;
  };
  full = desc_device_mouse u;
  high = none;
  selective_suspend = true;
}

abbrev pub desc_mouse2 : UsbNumbers → UsbDesc
desc_mouse2 u = record {
  id = record {
    vendor = 0x0627;
    product = 0x0001;
    bcd_device = 0;
    manufacturer = str_manufacturer;
    product_name = str_product_mouse;
    serial_number = str_serial_mouse;
  };
  full = desc_device_mouse u;
  high = some (desc_device_mouse2 u);
  selective_suspend = true;
}

abbrev pub desc_tablet : UsbNumbers → UsbDesc
desc_tablet u = record {
  id = record {
    vendor = 0x0627;
    product = 0x0001;
    bcd_device = 0;
    manufacturer = str_manufacturer;
    product_name = str_product_tablet;
    serial_number = str_serial_tablet;
  };
  full = desc_device_tablet u;
  high = none;
  selective_suspend = true;
}

abbrev pub desc_tablet2 : UsbNumbers → UsbDesc
desc_tablet2 u = record {
  id = record {
    vendor = 0x0627;
    product = 0x0001;
    bcd_device = 0;
    manufacturer = str_manufacturer;
    product_name = str_product_tablet;
    serial_number = str_serial_tablet;
  };
  full = desc_device_tablet u;
  high = some (desc_device_tablet2 u);
  selective_suspend = true;
}

abbrev pub desc_keyboard : UsbNumbers → UsbDesc
desc_keyboard u = record {
  id = record {
    vendor = 0x0627;
    product = 0x0001;
    bcd_device = 0;
    manufacturer = str_manufacturer;
    product_name = str_product_keyboard;
    serial_number = str_serial_keyboard;
  };
  full = desc_device_keyboard u;
  high = none;
  selective_suspend = true;
}

abbrev pub desc_keyboard2 : UsbNumbers → UsbDesc
desc_keyboard2 u = record {
  id = record {
    vendor = 0x0627;
    product = 0x0001;
    bcd_device = 0;
    manufacturer = str_manufacturer;
    product_name = str_product_keyboard;
    serial_number = str_serial_keyboard;
  };
  full = desc_device_keyboard u;
  high = some (desc_device_keyboard2 u);
  selective_suspend = true;
}
