-- ===== src/Snapshot/Bits.antt =====
-- Setting a bit of a byte, and the test that `parse_snapshot` makes of it.
use quic_keys.Common.{
  ℕ, zero, suc, ◌+◌, ◌*◌, ◌/◌, ◌%◌, ◌^◌, ◌||◌, ◌≡◌, ◌∙◌, arith, ◌==◌, bit_and, bit_or,
}
use quic_keys.Common.Bits.{and_halves, or_halves, bit_and-nothing, bit_or-nothing}
use native.Mathlib.Nat.{pow-suc}
use quic_keys.Snapshot.{test_bit}

and_one : (x : ℕ) → bit_and x 1 ≡ x % 2
and_one x = omega (arith, and_halves x 1, bit_and-nothing (x / 2))

or_one : (x : ℕ) → bit_or x 1 ≡ x / 2 * 2 + 1
or_one x = omega (arith, or_halves x 1, bit_or-nothing (x / 2))

module _ (x k : ℕ) where
  half_power : 2 ^ suc k / 2 ≡ 2 ^ k
  half_power = rw pow-suc (omega arith)

  even_power : 2 ^ suc k % 2 ≡ 0
  even_power = rw pow-suc (omega arith)

  and_double : bit_and x (2 ^ suc k) ≡ bit_and (x / 2) (2 ^ k) * 2
  and_double = rw half_power at (and_halves x (2 ^ suc k)) ∙ omega (arith, even_power)

  or_double : bit_or x (2 ^ suc k) ≡ bit_or (x / 2) (2 ^ k) * 2 + x % 2
  or_double = rw half_power at (or_halves x (2 ^ suc k)) ∙ omega (arith, even_power)

test_bit-zero : (x : ℕ) → test_bit x 0 ≡ (x % 2 == 1)
unfolding test_bit
test_bit-zero x = ground (arith, and_one x)

test_bit-suc : (x i : ℕ) → test_bit x (suc i) ≡ test_bit (x / 2) i
unfolding test_bit
test_bit-suc x i = ground (arith, and_double x i)

-- Setting bit `k` sets that bit and no other.
pub test_bit-or : (x k i : ℕ) → test_bit (bit_or x (2 ^ k)) i ≡ ((i == k) || test_bit x i)
test_bit-or x zero zero = ground (arith, test_bit-zero (bit_or x 1), or_one x)
test_bit-or x zero (suc i) =
    let half : bit_or x 1 / 2 ≡ x / 2 = omega (arith, or_one x) in
    test_bit-suc (bit_or x 1) i ∙ rw half (ground (arith, test_bit-suc x i))
test_bit-or x (suc k) zero =
    ground (arith, test_bit-zero (bit_or x (2 ^ suc k)), test_bit-zero x, or_double x k)
test_bit-or x (suc k) (suc i) =
    let half : bit_or x (2 ^ suc k) / 2 ≡ bit_or (x / 2) (2 ^ k) = omega (arith, or_double x k) in
    test_bit-suc (bit_or x (2 ^ suc k)) i
    ∙ rw half (test_bit-or (x / 2) k i ∙ ground (arith, test_bit-suc x i))
