-- ===== src/Snapshot.antt =====
-- `parse_snapshot` of daemon/src/main.cpp up to the point where it takes the lock: the fields of a
-- snapshot record and the set of keys that its bitmap names. Header(16), mods(4), pressed_bits(32).
pub mod Bitmap
pub mod RoundTrip
pub mod Bits
use quic_keys.Common.{
  ℕ, zero, suc, ◌+◌, ◌*◌, ◌%◌, ◌^◌, Bool, not, ◌&&◌, List, [], ◌++◌, Bytes, Option, none, some, ltb,
  leb, ◌==◌, if◌then◌else◌, length, bit_and,
}
use quic_keys.KeySet.{insert}
use quic_keys.Wire.{byte_at, be_u32, put_u32, put_u64}

-- `if (usage >= 0x04 && usage <= 0xA5)`
abbrev pub is_keyboard_usage : ℕ → Bool
is_keyboard_usage u = leb 0x04 u && leb u 0xA5

-- `byte & (1 << bit)`
pub test_bit : ℕ → ℕ → Bool
test_bit byte bit = not (bit_and byte (2 ^ bit) == 0)

-- One round of the inner loop.
scan_bit : ℕ → ℕ → ℕ → List ℕ → List ℕ
scan_bit byte_idx byte bit new_pressed =
    let usage = (byte_idx * 8 + bit) % 256 in
    if test_bit byte bit && is_keyboard_usage usage then insert usage new_pressed else new_pressed

-- `for (int bit = 0; bit < 8; ++bit)` with `n` rounds left
scan_bits : ℕ → ℕ → ℕ → ℕ → List ℕ → List ℕ
scan_bits zero byte_idx byte bit new_pressed = new_pressed
scan_bits (suc n) byte_idx byte bit new_pressed =
    scan_bits n byte_idx byte (bit + 1) (scan_bit byte_idx byte bit new_pressed)

-- One round of the outer loop; an empty byte is skipped.
scan_byte : ℕ → ℕ → List ℕ → List ℕ
scan_byte byte_idx byte new_pressed =
    if byte == 0 then new_pressed else scan_bits 8 byte_idx byte 0 new_pressed

-- `for (size_t byte_idx = 0; byte_idx < 32; ++byte_idx)` with `n` rounds left; `bitmap = data + 20`
scan_bytes : ℕ → ℕ → Bytes → List ℕ → List ℕ
scan_bytes zero byte_idx record_bytes new_pressed = new_pressed
scan_bytes (suc n) byte_idx record_bytes new_pressed =
    scan_bytes n (byte_idx + 1) record_bytes
      (scan_byte byte_idx (byte_at record_bytes (20 + byte_idx)) new_pressed)

pub pressed_keys : Bytes → List ℕ
pressed_keys record_bytes = scan_bytes 32 0 record_bytes []

pub record Snapshot : Type 0 where
  pub version : ℕ
  pub snap_mods : ℕ
  pub new_pressed : List ℕ

-- `none` is the early `return false`.
pub parse_snapshot : Bytes → Option Snapshot
parse_snapshot record_bytes =
    if ltb (length record_bytes) 52
    then none
    else some (record {
      version = be_u32 record_bytes 0;
      snap_mods = bit_and (be_u32 record_bytes 16) 0xFF;
      new_pressed = pressed_keys record_bytes;
    })

-- client/quic_snapshots.py: struct.pack("!IIQ", version, seq, t_ms) + struct.pack("!I", mods) +
-- pressed_bits
unfoldable pub build_snapshot : ℕ → Bytes → ℕ → ℕ → ℕ → Bytes
build_snapshot mods pressed_bits version seq t_ms =
    put_u32 version ++ put_u32 seq ++ put_u64 t_ms ++ put_u32 mods ++ pressed_bits
