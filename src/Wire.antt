-- ===== src/Wire.antt =====
-- The big-endian numbers that daemon/src/main.cpp reads out of records, and their writers in the
-- clients (Python's struct.pack with "!I", "!Q" and "!H").
pub mod RoundTrip
use quic_keys.Common.{
  ℕ, zero, suc, ◌+◌, ◌*◌, ◌/◌, ◌%◌, ◌^◌, ◌++◌, [], ◌∷◌, Bytes, u64_mod, bit_or, get_or,
}

-- `data[i]`; the callers stay inside the record.
abbrev pub byte_at : Bytes → ℕ → ℕ
byte_at bs i = get_or bs i 0

-- `(uint32_t(p[0])<<24) | (uint32_t(p[1])<<16) | (uint32_t(p[2])<<8) | uint32_t(p[3])`
unfoldable pub be_u32 : Bytes → ℕ → ℕ
be_u32 bs i =
    bit_or
      (bit_or (bit_or (byte_at bs i * 2 ^ 24) (byte_at bs (i + 1) * 2 ^ 16))
        (byte_at bs (i + 2) * 2 ^ 8))
      (byte_at bs (i + 3))

-- `uint16_t(data[12])<<8 | uint16_t(data[13])`
unfoldable pub be_u16 : Bytes → ℕ → ℕ
be_u16 bs i = bit_or (byte_at bs i * 2 ^ 8) (byte_at bs (i + 1))

-- `for (int i=0;i<8;i++) v = (v<<8) | uint64_t(p[i]);` with `n` rounds left
be_rounds : ℕ → Bytes → ℕ → ℕ → ℕ
be_rounds zero bs i v = v
be_rounds (suc n) bs i v = be_rounds n bs (i + 1) (bit_or (v * 2 ^ 8 % u64_mod) (byte_at bs i))

unfoldable pub be_u64 : Bytes → ℕ → ℕ
unfolding be_rounds
be_u64 bs i = be_rounds 8 bs i 0

-- The writers.
abbrev pub put_u16 : ℕ → Bytes
put_u16 x = (x / 2 ^ 8 % 256) ∷ (x % 256) ∷ []

abbrev pub put_u32 : ℕ → Bytes
put_u32 x = (x / 2 ^ 24 % 256) ∷ (x / 2 ^ 16 % 256) ∷ (x / 2 ^ 8 % 256) ∷ (x % 256) ∷ []

abbrev pub put_u64 : ℕ → Bytes
put_u64 x = put_u32 (x / 2 ^ 32) ++ put_u32 (x % 2 ^ 32)
