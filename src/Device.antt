-- ===== src/Device.antt =====
-- The socket backend that qemu/dev-hid.c adds to QEMU's USB keyboard: bytes of the HID socket are
-- collected in `kbd_sock_buf`, and every eight of them are applied as a boot keyboard report.
-- `key_size` is `sizeof(hs->kbd.key)`, which QEMU's headers fix (16 there).
pub mod Apply
pub mod Ingest
use quic_keys.Common.{
  ℕ, zero, suc, ◌+◌, ◌-◌, Bool, true, false, ◌&&◌, List, [], ◌∷◌, ◌++◌, Bytes, ltb, leb, ◌==◌,
  if◌then◌else◌, length, get_or, set, take, drop, replicate, min,
}
use quic_keys.Wire.{byte_at}

-- What kind of device it is, `HID_MOUSE` and so on.
pub data Kind : Type 0 where
  mouse tablet keyboard : Kind

-- The fields of `HIDState` that dev-hid.c reads or writes; `wakeups` counts the calls of
-- `usb_hid_changed`.
pub record HidState : Type 0 where
  pub kind : Kind
  pub protocol : ℕ
  pub idle : ℕ
  pub modifiers : ℕ
  pub key : Bytes
  pub keys : ℕ
  pub n : ℕ
  pub idle_pending : Bool
  pub wakeups : ℕ

pub record UsbHidState : Type 0 where
  pub hid : HidState
  pub kbd_sock_buf : Bytes
  pub kbd_sock_len : ℕ

-- `uint8_t kbd_sock_buf[16]`
abbrev pub sock_buf_size : ℕ
sock_buf_size = 16

-- `usb_hid_changed` wakes the interrupt endpoint.
usb_hid_changed : HidState → HidState
usb_hid_changed hs = record hs { wakeups = hs.wakeups + 1 }

-- `for (i = 2; i < 8; i++)` with `rounds` left: the keys written and `cnt`.
collect : ℕ → ℕ → ℕ → Bytes → Bytes → ℕ → Bytes × ℕ
collect key_size zero i rep key cnt = (key, cnt)
collect key_size (suc rounds) i rep key cnt =
    let b = byte_at rep i in
    let key' = if b == 0 then key else if ltb cnt key_size then set key cnt b else key in
    collect key_size rounds (i + 1) rep key' (if b == 0 then cnt else cnt + 1)

pub usb_hid_kbd_apply_report : ℕ → Bytes → HidState → HidState
usb_hid_kbd_apply_report key_size rep hs =
    let (key, cnt) = collect key_size 6 2 rep (replicate key_size 0) 0 in
    usb_hid_changed (record hs {
      modifiers = byte_at rep 0;
      key = key;
      keys = min cnt key_size;
      n = 0;
      idle_pending = false;
    })

pub kbd_chr_can_read : UsbHidState → ℕ
kbd_chr_can_read us = sock_buf_size - us.kbd_sock_len

-- `memmove(buf, buf + 8, n)`
move_down : ℕ → Bytes → Bytes
move_down n buf = take n (drop 8 buf) ++ drop n buf

-- One byte: `buf[len++] = b`, and the report if there are eight.
accept : ℕ → ℕ → UsbHidState → UsbHidState
accept key_size b us =
    let buf = set us.kbd_sock_buf us.kbd_sock_len b in
    let len = us.kbd_sock_len + 1 in
    if leb 8 len
    then record {
      hid = usb_hid_kbd_apply_report key_size buf us.hid;
      kbd_sock_buf = move_down (len - 8) buf;
      kbd_sock_len = len - 8;
    }
    else record us { kbd_sock_buf = buf; kbd_sock_len = len }

-- `while (size > 0 && us->kbd_sock_len < sizeof(us->kbd_sock_buf))`: what the loop does not take when
-- the buffer is full is lost.
pub kbd_chr_read : ℕ → Bytes → UsbHidState → UsbHidState
kbd_chr_read key_size [] us = us
kbd_chr_read key_size (b ∷ bytes) us =
    let rest = kbd_chr_read key_size bytes (accept key_size b us) in
    if ltb us.kbd_sock_len sock_buf_size then rest else us

-- What the realize function of the keyboard does to the buffer: `us->kbd_sock_len = 0;`
pub empty_sock_buf : UsbHidState → UsbHidState
empty_sock_buf us = record us { kbd_sock_len = 0 }

-- A run of reads.
pub read_all : ℕ → List Bytes → UsbHidState → UsbHidState
read_all key_size [] us = us
read_all key_size (b ∷ bs) us = read_all key_size bs (kbd_chr_read key_size b us)
