-- ===== src/Snapshot/RoundTrip.antt =====
-- What a snapshot of the client is read back as, and when a record is refused.
use quic_keys.Common.{
  ℕ, ◌+◌, ◌/◌, ◌%◌, ◌^◌, ◌<◌, ◌&&◌, ◌≡◌, ◌↔◌, ◌++◌, refl, ◌∙◌, arith, Bytes, length, none, some,
  le→ltb, get_or-append,
}
use quic_keys.Common.Bits.{bit_and_255}
use quic_keys.KeySet.{mem}
use quic_keys.Wire.{byte_at, be_u32, put_u32, put_u64}
use quic_keys.Wire.RoundTrip.{be_u32_value, be_u32-put}
use quic_keys.Snapshot.{
  Snapshot, parse_snapshot, build_snapshot, is_keyboard_usage, test_bit, pressed_keys,
}
use quic_keys.Snapshot.Bitmap.{mem-pressed_keys}

-- A record is refused exactly if it is shorter than 52 bytes.
pub parse_snapshot-none :
    (record_bytes : Bytes) → (parse_snapshot record_bytes ≡ none) ↔ (length record_bytes < 52)
unfolding parse_snapshot
parse_snapshot-none bs = ground arith

module _ (mods version seq t_ms : ℕ) (pressed_bits : Bytes) where
  built_bits :
      (i : ℕ)
      → byte_at (build_snapshot mods pressed_bits version seq t_ms) (20 + i)
        ≡ byte_at pressed_bits i
  unfolding build_snapshot
  built_bits i =
      get_or-append 20 i (put_u32 version ++ put_u32 seq ++ put_u64 t_ms ++ put_u32 mods)
        pressed_bits 0 refl

  pub built_length :
      length (build_snapshot mods pressed_bits version seq t_ms) ≡ 20 + length pressed_bits
  unfolding build_snapshot
  built_length = omega arith

  built_mods : mods < 2 ^ 32 → be_u32 (build_snapshot mods pressed_bits version seq t_ms) 16 ≡ mods
  unfolding build_snapshot
  built_mods h =
      be_u32_value (build_snapshot mods pressed_bits version seq t_ms) 16 (omega arith)
        (omega arith) (omega arith)
      ∙ omega arith

  built_version :
      version < 2 ^ 32 → be_u32 (build_snapshot mods pressed_bits version seq t_ms) 0 ≡ version
  unfolding build_snapshot
  built_version h =
      be_u32-put version (put_u32 seq ++ put_u64 t_ms ++ put_u32 mods ++ pressed_bits) h

  -- A snapshot of the client with a bitmap of 32 bytes and a version and modifiers of 32 bits is
  -- accepted: the daemon reads its version, the low byte of its modifiers, and the keyboard usages
  -- whose bits are set in its bitmap.
  pub parse-build :
      mods < 2 ^ 32
      → version < 2 ^ 32
      → length pressed_bits ≡ 32
      → (s : Snapshot) × (parse_snapshot (build_snapshot mods pressed_bits version seq t_ms)
          ≡ some s)
        × (s.version ≡ version)
        × (s.snap_mods ≡ mods % 256)
        × ((u : ℕ)
            → mem u s.new_pressed
              ≡ (is_keyboard_usage u && test_bit (byte_at pressed_bits (u / 8)) (u % 8)))
  unfolding parse_snapshot
  parse-build hm hv hl = (
    record { version = version; snap_mods = mods % 256; new_pressed = pressed_keys built },
    rw (le→ltb (length built) 52 (omega (arith, built_length)))
        (rw (built_version hv, built_mods hm, bit_and_255 mods)),
    refl,
    refl,
    λ u. mem-pressed_keys u built ∙ rw (built_bits (u / 8)),
  )
    where
      built : Bytes
      built = build_snapshot mods pressed_bits version seq t_ms

-- The keys of a record that is not refused are those of its bitmap.
pub parse_snapshot-keys :
    (record_bytes : Bytes) (s : Snapshot)
    → parse_snapshot record_bytes ≡ some s
    → s.new_pressed ≡ pressed_keys record_bytes
unfolding parse_snapshot
parse_snapshot-keys bs s h = ground arith
