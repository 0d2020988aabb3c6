-- ===== src/Usb/ReportDescriptors.antt =====
-- The report descriptors of qemu/dev-hid.c, byte for byte, one line of the source to a line.
use quic_keys.Common.{Bytes, [], ◌∷◌}

abbrev pub qemu_mouse_hid_report_descriptor : Bytes
qemu_mouse_hid_report_descriptor =
    0x05 ∷ 0x01 ∷ 0x09 ∷ 0x02 ∷ 0xa1 ∷ 0x01 ∷ 0x09 ∷ 0x01 ∷ 0xa1 ∷ 0x00 ∷ 0x05 ∷ 0x09 ∷ 0x19 ∷ 0x01
    ∷ 0x29 ∷ 0x05 ∷ 0x15 ∷ 0x00 ∷ 0x25 ∷ 0x01 ∷ 0x95 ∷ 0x05 ∷ 0x75 ∷ 0x01 ∷ 0x81 ∷ 0x02 ∷ 0x95
    ∷ 0x01 ∷ 0x75 ∷ 0x03 ∷ 0x81 ∷ 0x01 ∷ 0x05 ∷ 0x01 ∷ 0x09 ∷ 0x30 ∷ 0x09 ∷ 0x31 ∷ 0x09 ∷ 0x38
    ∷ 0x15 ∷ 0x81 ∷ 0x25 ∷ 0x7f ∷ 0x75 ∷ 0x08 ∷ 0x95 ∷ 0x03 ∷ 0x81 ∷ 0x06 ∷ 0xc0 ∷ 0xc0 ∷ []

abbrev pub qemu_tablet_hid_report_descriptor : Bytes
qemu_tablet_hid_report_descriptor =
    0x05 ∷ 0x01 ∷ 0x09 ∷ 0x02 ∷ 0xa1 ∷ 0x01 ∷ 0x09 ∷ 0x01 ∷ 0xa1 ∷ 0x00 ∷ 0x05 ∷ 0x09 ∷ 0x19 ∷ 0x01
    ∷ 0x29 ∷ 0x03 ∷ 0x15 ∷ 0x00 ∷ 0x25 ∷ 0x01 ∷ 0x95 ∷ 0x03 ∷ 0x75 ∷ 0x01 ∷ 0x81 ∷ 0x02 ∷ 0x95
    ∷ 0x01 ∷ 0x75 ∷ 0x05 ∷ 0x81 ∷ 0x01 ∷ 0x05 ∷ 0x01 ∷ 0x09 ∷ 0x30 ∷ 0x09 ∷ 0x31 ∷ 0x15 ∷ 0x00
    ∷ 0x26 ∷ 0xff ∷ 0x7f ∷ 0x35 ∷ 0x00 ∷ 0x46 ∷ 0xff ∷ 0x7f ∷ 0x75 ∷ 0x10 ∷ 0x95 ∷ 0x02 ∷ 0x81
    ∷ 0x02 ∷ 0x05 ∷ 0x01 ∷ 0x09 ∷ 0x38 ∷ 0x15 ∷ 0x81 ∷ 0x25 ∷ 0x7f ∷ 0x35 ∷ 0x00 ∷ 0x45 ∷ 0x00
    ∷ 0x75 ∷ 0x08 ∷ 0x95 ∷ 0x01 ∷ 0x81 ∷ 0x06 ∷ 0xc0 ∷ 0xc0 ∷ []

abbrev pub qemu_keyboard_hid_report_descriptor : Bytes
qemu_keyboard_hid_report_descriptor =
    0x05 ∷ 0x01 ∷ 0x09 ∷ 0x06 ∷ 0xa1 ∷ 0x01 ∷ 0x75 ∷ 0x01 ∷ 0x95 ∷ 0x08 ∷ 0x05 ∷ 0x07 ∷ 0x19 ∷ 0xe0
    ∷ 0x29 ∷ 0xe7 ∷ 0x15 ∷ 0x00 ∷ 0x25 ∷ 0x01 ∷ 0x81 ∷ 0x02 ∷ 0x95 ∷ 0x01 ∷ 0x75 ∷ 0x08 ∷ 0x81
    ∷ 0x01 ∷ 0x95 ∷ 0x05 ∷ 0x75 ∷ 0x01 ∷ 0x05 ∷ 0x08 ∷ 0x19 ∷ 0x01 ∷ 0x29 ∷ 0x05 ∷ 0x91 ∷ 0x02
    ∷ 0x95 ∷ 0x01 ∷ 0x75 ∷ 0x03 ∷ 0x91 ∷ 0x01 ∷ 0x95 ∷ 0x06 ∷ 0x75 ∷ 0x08 ∷ 0x15 ∷ 0x00 ∷ 0x25
    ∷ 0xff ∷ 0x05 ∷ 0x07 ∷ 0x19 ∷ 0x00 ∷ 0x29 ∷ 0xff ∷ 0x81 ∷ 0x00 ∷ 0xc0 ∷ []
