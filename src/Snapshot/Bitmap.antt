-- ===== src/Snapshot/Bitmap.antt =====
-- The double loop of `parse_snapshot` over the bitmap, against the bits themselves.
use quic_keys.Common.{
  ℕ, zero, suc, ◌+◌, ◌*◌, ◌/◌, ◌%◌, ◌^◌, ◌≤◌, ◌<◌, Bool, false, ◌&&◌, ◌||◌, List, [], ◌≡◌, ◌∙◌,
  arith, Bytes, ltb, leb, ◌==◌, if_keeps,
}
use quic_keys.Common.Bits.{zero-bit_and}
use quic_keys.KeySet.{mem, insert, Distinct}
use quic_keys.KeySet.Laws.{mem-insert, insert-Distinct}
use quic_keys.Wire.{byte_at}
use quic_keys.Snapshot.{
  is_keyboard_usage, test_bit, scan_bit, scan_bits, scan_byte, scan_bytes, pressed_keys,
}

-- Whether one byte of the bitmap names the usage `u` by a bit from `bit` up to `bit + n`.
abbrev named_from : ℕ → ℕ → ℕ → ℕ → ℕ → Bool
named_from u byte_idx byte bit n =
    u / 8 == byte_idx
    && (leb bit (u % 8) && ltb (u % 8) (bit + n))
    && test_bit byte (u % 8)
    && is_keyboard_usage u

mem-scan_bit :
    (u byte_idx byte bit : ℕ) (s : List ℕ)
    → byte_idx < 32
    → bit < 8
    → mem u (scan_bit byte_idx byte bit s) ≡ (named_from u byte_idx byte bit 1 || mem u s)
unfolding scan_bit
mem-scan_bit u byte_idx byte bit s hi hb =
    ground (arith, mem-insert u ((byte_idx * 8 + bit) % 256) s)

mem-scan_bits :
    (n u byte_idx byte bit : ℕ) (s : List ℕ)
    → byte_idx < 32
    → bit + n ≤ 8
    → mem u (scan_bits n byte_idx byte bit s) ≡ (named_from u byte_idx byte bit n || mem u s)
unfolding scan_bits
mem-scan_bits zero u byte_idx byte bit s hi hb = ground arith
mem-scan_bits (suc n) u byte_idx byte bit s hi hb = ground (
  arith,
  mem-scan_bits n u byte_idx byte (bit + 1) (scan_bit byte_idx byte bit s),
  mem-scan_bit u byte_idx byte bit s,
)

-- Whether byte `byte_idx` of the bitmap names `u`.
abbrev named_by : ℕ → ℕ → ℕ → Bool
named_by u byte_idx byte = u / 8 == byte_idx && test_bit byte (u % 8) && is_keyboard_usage u

pub test_bit-zero : (bit : ℕ) → test_bit 0 bit ≡ false
unfolding test_bit
test_bit-zero bit = ground (arith, zero-bit_and (2 ^ bit))

mem-scan_byte :
    (u byte_idx byte : ℕ) (s : List ℕ)
    → byte_idx < 32
    → mem u (scan_byte byte_idx byte s) ≡ (named_by u byte_idx byte || mem u s)
unfolding scan_byte
mem-scan_byte u byte_idx zero s h = ground (arith, test_bit-zero (u % 8))
mem-scan_byte u byte_idx (suc b) s h = ground (arith, mem-scan_bits 8 u byte_idx (suc b) 0 s h)

mem-scan_bytes :
    (n u byte_idx : ℕ) (bs : Bytes) (s : List ℕ)
    → byte_idx + n ≤ 32
    → mem u (scan_bytes n byte_idx bs s) ≡ (
        (leb byte_idx (u / 8)
          && ltb (u / 8) (byte_idx + n)
          && named_by u (u / 8) (byte_at bs (20 + u / 8)))
        || mem u s)
unfolding scan_bytes
mem-scan_bytes zero u byte_idx bs s h = ground arith
mem-scan_bytes (suc n) u byte_idx bs s h = ground (
  arith,
  mem-scan_bytes n u (byte_idx + 1) bs (scan_byte byte_idx (byte_at bs (20 + byte_idx)) s),
  mem-scan_byte u byte_idx (byte_at bs (20 + byte_idx)) s,
)

-- A usage is in the set read from a snapshot exactly if it lies in the keyboard range 0x04..0xA5
-- and its bit in the bitmap is set.
pub mem-pressed_keys :
    (u : ℕ) (record_bytes : Bytes)
    → mem u (pressed_keys record_bytes)
      ≡ (is_keyboard_usage u && test_bit (byte_at record_bytes (20 + u / 8)) (u % 8))
unfolding pressed_keys mem
mem-pressed_keys u bs = mem-scan_bytes 32 u 0 bs [] (omega arith) ∙ ground arith

scan_bits-Distinct :
    (n byte_idx byte bit : ℕ) (s : List ℕ) → Distinct s → Distinct (scan_bits n byte_idx byte bit s)
unfolding scan_bits scan_bit
scan_bits-Distinct zero byte_idx byte bit s d = d
scan_bits-Distinct (suc n) byte_idx byte bit s d =
    scan_bits-Distinct n byte_idx byte (bit + 1) _
      (if_keeps Distinct _ (insert _ s) s (insert-Distinct _ s d) d)

scan_bytes-Distinct :
    (n byte_idx : ℕ) (bs : Bytes) (s : List ℕ) → Distinct s → Distinct (scan_bytes n byte_idx bs s)
unfolding scan_bytes scan_byte
scan_bytes-Distinct zero byte_idx bs s d = d
scan_bytes-Distinct (suc n) byte_idx bs s d =
    scan_bytes-Distinct n (byte_idx + 1) bs _
      (if_keeps Distinct _ s _ d (scan_bits-Distinct 8 byte_idx _ 0 s d))

-- No key stands twice in it.
pub pressed_keys-Distinct : (record_bytes : Bytes) → Distinct (pressed_keys record_bytes)
unfolding pressed_keys
pressed_keys-Distinct bs = scan_bytes-Distinct 32 0 bs [] tt
