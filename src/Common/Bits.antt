-- ===== src/Common/Bits.antt =====
-- Laws of `|` and `&` on numbers that are not literals: what the lowest digits of the operands make
-- of the result. A field shifted above another joins it by `|` as by `+`, and the mask 0xFF is `%`.
use Prim.Native.Nat.{
  ℕ, zero, suc, ◌+◌, ◌*◌, ◌/◌, ◌%◌, ◌^◌, ◌≤◌, ◌<◌, min, max, bit_and, bit_or, digits,
  bit_and-bitwise, bit_or-bitwise,
}
use mathlib.Core.Path.{◌≡◌, refl, sym, ap, ◌∙◌}
use native.Mathlib.Omega.{arith}
use native.Mathlib.Nat.{pow-suc}

module _ (z : ℕ → ℕ) (f : ℕ → ℕ → ℕ) where
  -- A larger count of digits changes nothing.
  spare_digits : (more n x y : ℕ) → x ≤ n → n ≤ more → digits z f more x y ≡ digits z f n x y
  spare_digits zero zero zero y h le = refl
  spare_digits zero n (suc x) y h le = absurd (omega arith)
  spare_digits zero (suc n) zero y h le = absurd (omega arith)
  spare_digits (suc more) zero zero y h le = refl
  spare_digits (suc more) zero (suc x) y h le = absurd (omega arith)
  spare_digits (suc more) (suc n) zero y h le = refl
  spare_digits (suc more) (suc n) (suc x) y h le =
      ap (λ v. v * 2 + f (suc x % 2) (y % 2))
        (spare_digits more n (suc x / 2) (y / 2) (omega arith) (omega arith))

  -- The lowest digit and the rest.
  lowest_digit :
      (x y : ℕ)
      → digits z f (suc x) (suc x) y
        ≡ digits z f (suc x / 2) (suc x / 2) (y / 2) * 2 + f (suc x % 2) (y % 2)
  lowest_digit x y =
      let half = suc x / 2 in
      ap (λ v. v * 2 + f (suc x % 2) (y % 2))
        (spare_digits x half half (y / 2) (omega arith) (omega arith))

pub or_halves : (x y : ℕ) → bit_or x y ≡ bit_or (x / 2) (y / 2) * 2 + max (x % 2) (y % 2)
or_halves zero y = omega (arith, bit_or-bitwise 0 y, bit_or-bitwise 0 (y / 2))
or_halves (suc x) y =
    bit_or-bitwise (suc x) y
    ∙ lowest_digit (λ b. b) max x y
    ∙ ap (λ v. v * 2 + max (suc x % 2) (y % 2)) (sym (bit_or-bitwise (suc x / 2) (y / 2)))

pub and_halves : (x y : ℕ) → bit_and x y ≡ bit_and (x / 2) (y / 2) * 2 + min (x % 2) (y % 2)
and_halves zero y = omega (arith, bit_and-bitwise 0 y, bit_and-bitwise 0 (y / 2))
and_halves (suc x) y =
    bit_and-bitwise (suc x) y
    ∙ lowest_digit (λ b. zero) min x y
    ∙ ap (λ v. v * 2 + min (suc x % 2) (y % 2)) (sym (bit_and-bitwise (suc x / 2) (y / 2)))

pub zero-bit_and : (y : ℕ) → bit_and 0 y ≡ 0
zero-bit_and y = bit_and-bitwise 0 y

below-or_nothing : (bound x : ℕ) → x < bound → bit_or x 0 ≡ x
below-or_nothing zero x h = absurd (omega arith)
below-or_nothing (suc bound) zero h = bit_or-bitwise 0 0
below-or_nothing (suc bound) (suc x) h =
    omega (arith, or_halves (suc x) 0, below-or_nothing bound (suc x / 2) (omega arith))

below-and_nothing : (bound x : ℕ) → x < bound → bit_and x 0 ≡ 0
below-and_nothing zero x h = absurd (omega arith)
below-and_nothing (suc bound) zero h = zero-bit_and 0
below-and_nothing (suc bound) (suc x) h =
    omega (arith, and_halves (suc x) 0, below-and_nothing bound (suc x / 2) (omega arith))

pub bit_or-nothing : (x : ℕ) → bit_or x 0 ≡ x
bit_or-nothing x = below-or_nothing (suc x) x (omega arith)

pub bit_and-nothing : (x : ℕ) → bit_and x 0 ≡ 0
bit_and-nothing x = below-and_nothing (suc x) x (omega arith)

-- A field above the lowest `k` bits joins them by `|` as by `+`.
pub bit_or_join : (k x y : ℕ) → y < 2 ^ k → bit_or (x * 2 ^ k) y ≡ x * 2 ^ k + y
bit_or_join zero x y h =
    let low : y ≡ 0 = omega arith in
    let whole : x * 2 ^ 0 ≡ x = omega arith in
    rw (low, whole) (omega (arith, below-or_nothing (suc x) x (omega arith)))
bit_or_join (suc k) x y h =
    let twice : y < 2 ^ k * 2 = rw pow-suc at h in
    let whole : x * 2 ^ suc k ≡ x * 2 ^ k * 2 = rw pow-suc (omega arith) in
    let high : x * 2 ^ suc k / 2 ≡ x * 2 ^ k = rw whole (omega arith) in
    let joined : bit_or (x * 2 ^ suc k / 2) (y / 2) ≡ x * 2 ^ k + y / 2 =
      rw high (bit_or_join k x (y / 2) (omega arith)) in
    omega (arith, or_halves (x * 2 ^ suc k) y)

-- One more digit of a mask of ones.
longer_mask : (x m r : ℕ) → bit_and (x / 2) m ≡ r → bit_and x (m * 2 + 1) ≡ r * 2 + x % 2
longer_mask x m r h =
    let half : (m * 2 + 1) / 2 ≡ m = omega arith in
    let rest : bit_and (x / 2) ((m * 2 + 1) / 2) ≡ r = rw half h in
    omega (arith, and_halves x (m * 2 + 1))

four_ones : (x : ℕ) → bit_and x 15 ≡ x % 16
four_ones x =
    let none_left = below-and_nothing (suc (x / 2 / 2 / 2 / 2)) (x / 2 / 2 / 2 / 2) (omega arith) in
    longer_mask x 7 _ (
      longer_mask (x / 2) 3 _
        (longer_mask (x / 2 / 2) 1 _ (longer_mask (x / 2 / 2 / 2) 0 0 none_left)))
    ∙ omega arith

-- The mask 0xFF keeps the lowest byte.
pub bit_and_255 : (x : ℕ) → bit_and x 255 ≡ x % 256
bit_and_255 x =
    longer_mask x 127 _ (
      longer_mask (x / 2) 63 _ (
        longer_mask (x / 2 / 2) 31 _
          (longer_mask (x / 2 / 2 / 2) 15 _ (four_ones (x / 2 / 2 / 2 / 2)))))
    ∙ omega arith
