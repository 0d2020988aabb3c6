-- ===== src/Wire/RoundTrip.antt =====
-- What the big-endian readers read back, and the value that four bytes spell.
use quic_keys.Common.{
  ℕ, ◌+◌, ◌*◌, ◌%◌, ◌^◌, ◌<◌, ◌++◌, ◌≡◌, arith, Bytes, IsByte, bit_or, u64_mod, ◌∙◌, ap, suc,
}
use quic_keys.Common.Bits.{bit_or_join}
use quic_keys.Wire.{byte_at, be_u32, be_u16, be_u64, be_rounds, put_u16, put_u32, put_u64}

-- Four bytes spell their sum by weight.
pub be_u32_value :
    (bs : Bytes) (i : ℕ)
    → IsByte (byte_at bs (i + 1))
    → IsByte (byte_at bs (i + 2))
    → IsByte (byte_at bs (i + 3))
    → be_u32 bs i
      ≡ byte_at bs i * 2 ^ 24
        + byte_at bs (i + 1) * 2 ^ 16
        + byte_at bs (i + 2) * 2 ^ 8
        + byte_at bs (i + 3)
unfolding be_u32
be_u32_value bs i h1 h2 h3 =
    let a = byte_at bs i in
    let b = byte_at bs (i + 1) in
    let c = byte_at bs (i + 2) in
    let d = byte_at bs (i + 3) in
    let e1 : bit_or (a * 2 ^ 24) (b * 2 ^ 16) ≡ (a * 256 + b) * 2 ^ 16 =
      bit_or_join 24 a (b * 2 ^ 16) (omega arith) ∙ omega arith in
    let e2 : bit_or ((a * 256 + b) * 2 ^ 16) (c * 2 ^ 8) ≡ ((a * 256 + b) * 256 + c) * 2 ^ 8 =
      bit_or_join 16 (a * 256 + b) (c * 2 ^ 8) (omega arith) ∙ omega arith in
    rw e1 (rw e2 (bit_or_join 8 ((a * 256 + b) * 256 + c) d h3 ∙ omega arith))

pub be_u16_value :
    (bs : Bytes) (i : ℕ)
    → IsByte (byte_at bs (i + 1))
    → be_u16 bs i ≡ byte_at bs i * 2 ^ 8 + byte_at bs (i + 1)
unfolding be_u16
be_u16_value bs i h = bit_or_join 8 (byte_at bs i) (byte_at bs (i + 1)) h

-- The readers read back what the writers write, whatever follows.
pub be_u32-put : (x : ℕ) (rest : Bytes) → x < 2 ^ 32 → be_u32 (put_u32 x ++ rest) 0 ≡ x
be_u32-put x rest h =
    be_u32_value (put_u32 x ++ rest) 0 (omega arith) (omega arith) (omega arith) ∙ omega arith

pub be_u16-put : (x : ℕ) (rest : Bytes) → x < 2 ^ 16 → be_u16 (put_u16 x ++ rest) 0 ≡ x
be_u16-put x rest h = be_u16_value (put_u16 x ++ rest) 0 (omega arith) ∙ omega arith

-- One round of the 64-bit reader, while nothing is shifted out.
round_value : (v b : ℕ) → v < 2 ^ 56 → b < 256 → bit_or (v * 2 ^ 8 % u64_mod) b ≡ v * 256 + b
round_value v b hv hb =
    let e : v * 2 ^ 8 % u64_mod ≡ v * 2 ^ 8 = omega arith in rw e (bit_or_join 8 v b hb)

rounds_step :
    (n : ℕ) (bs : Bytes) (i v : ℕ)
    → v < 2 ^ 56
    → IsByte (byte_at bs i)
    → be_rounds (suc n) bs i v ≡ be_rounds n bs (i + 1) (v * 256 + byte_at bs i)
unfolding be_rounds
rounds_step n bs i v hv hb = ap (be_rounds n bs (i + 1)) (round_value v (byte_at bs i) hv hb)

-- The eight bytes behind the first four, as two numbers of 32 bits.
be_u64_value :
    (bs : Bytes)
    → IsByte (byte_at bs 4)
    → IsByte (byte_at bs 5)
    → IsByte (byte_at bs 6)
    → IsByte (byte_at bs 7)
    → IsByte (byte_at bs 8)
    → IsByte (byte_at bs 9)
    → IsByte (byte_at bs 10)
    → IsByte (byte_at bs 11)
    → be_u64 bs 4
      ≡ (byte_at bs 4 * 2 ^ 24 + byte_at bs 5 * 2 ^ 16 + byte_at bs 6 * 2 ^ 8 + byte_at bs 7)
          * 2 ^ 32
        + (byte_at bs 8 * 2 ^ 24 + byte_at bs 9 * 2 ^ 16 + byte_at bs 10 * 2 ^ 8 + byte_at bs 11)
unfolding be_u64
be_u64_value bs h4 h5 h6 h7 h8 h9 h10 h11 =
    let v5 = 0 * 256 + byte_at bs 4 in
    let v6 = v5 * 256 + byte_at bs 5 in
    let v7 = v6 * 256 + byte_at bs 6 in
    let v8 = v7 * 256 + byte_at bs 7 in
    let v9 = v8 * 256 + byte_at bs 8 in
    let v10 = v9 * 256 + byte_at bs 9 in
    let v11 = v10 * 256 + byte_at bs 10 in
    rounds_step 7 bs 4 0 (omega arith) h4
    ∙ rounds_step 6 bs 5 v5 (omega arith) h5
    ∙ rounds_step 5 bs 6 v6 (omega arith) h6
    ∙ rounds_step 4 bs 7 v7 (omega arith) h7
    ∙ rounds_step 3 bs 8 v8 (omega arith) h8
    ∙ rounds_step 2 bs 9 v9 (omega arith) h9
    ∙ rounds_step 1 bs 10 v10 (omega arith) h10
    ∙ rounds_step 0 bs 11 v11 (omega arith) h11
    ∙ unfold be_rounds in omega arith

-- A number of 64 bits behind four bytes is read back.
pub be_u64-put :
    (head x : ℕ) (rest : Bytes) → x < 2 ^ 64 → be_u64 (put_u32 head ++ (put_u64 x ++ rest)) 4 ≡ x
be_u64-put head x rest h =
    be_u64_value (put_u32 head ++ (put_u64 x ++ rest)) (omega arith) (omega arith) (omega arith)
      (omega arith) (omega arith) (omega arith) (omega arith) (omega arith)
    ∙ omega arith
