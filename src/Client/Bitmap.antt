-- ===== src/Client/Bitmap.antt =====
-- The client's bitmap, as `parse_snapshot` of daemon/src/main.cpp tests it.
use quic_keys.Common.{
  ℕ, zero, suc, ◌/◌, ◌%◌, ◌^◌, ◌<◌, ◌||◌, List, [], ◌∷◌, ◌≡◌, refl, ◌∙◌, arith, Bytes, ◌==◌,
  if◌then◌else◌, length, get_or, set, replicate, length-set, bit_or,
}
use quic_keys.KeySet.{mem}
use quic_keys.Wire.{byte_at}
use quic_keys.Snapshot.{test_bit}
use quic_keys.Snapshot.Bits.{test_bit-or}
use quic_keys.Snapshot.Bitmap.{test_bit-zero}
use quic_keys.Client.{set_usage, set_usages, bitmap_from_pressed}

get-set :
    (b : Bytes) (i j v : ℕ)
    → i < length b
    → get_or (set b i v) j 0 ≡ (if j == i then v else get_or b j 0)
get-set [] i j v h = absurd (omega arith)
get-set (x ∷ b) zero zero v h = refl
get-set (x ∷ b) zero (suc j) v h = ground arith
get-set (x ∷ b) (suc i) zero v h = ground arith
get-set (x ∷ b) (suc i) (suc j) v h = get-set b i j v (omega arith) ∙ ground arith

length-set_usage : (u : ℕ) (b : Bytes) → length (set_usage u b) ≡ length b
unfolding set_usage
length-set_usage u b =
    ground (arith, length-set b (u / 8) (bit_or (get_or b (u / 8) 0) (2 ^ (u % 8))))

module _ (j : ℕ) (byte : j < 256) where
  test-set_usage :
      (u : ℕ) (b : Bytes)
      → length b ≡ 32
      → test_bit (get_or (set_usage u b) (j / 8) 0) (j % 8)
        ≡ ((j == u) || test_bit (get_or b (j / 8) 0) (j % 8))
  unfolding set_usage
  test-set_usage u b h = ground (
    arith,
    get-set b (u / 8) (j / 8) (bit_or (get_or b (u / 8) 0) (2 ^ (u % 8))),
    test_bit-or (get_or b (u / 8) 0) (u % 8) (j % 8),
  )

  test-set_usages :
      (us : List ℕ) (b : Bytes)
      → length b ≡ 32
      → test_bit (get_or (set_usages us b) (j / 8) 0) (j % 8)
        ≡ (mem j us || test_bit (get_or b (j / 8) 0) (j % 8))
  unfolding set_usages mem
  test-set_usages [] b h = refl
  test-set_usages (u ∷ us) b h =
      ground (arith, test-set_usages us (set_usage u b), length-set_usage u b, test-set_usage u b h)

pub get_or-zeros : (n i : ℕ) → get_or (replicate {A = ℕ} n 0) i 0 ≡ zero
get_or-zeros zero i = refl
get_or-zeros (suc n) zero = refl
get_or-zeros (suc n) (suc i) = get_or-zeros n i

-- A usage below 256 stands in the bitmap exactly if it is pressed, and the bitmap has 32 bytes.
pub test_bit-bitmap :
    (pressed : List ℕ) (j : ℕ)
    → j < 256
    → test_bit (byte_at (bitmap_from_pressed pressed) (j / 8)) (j % 8) ≡ mem j pressed
unfolding bitmap_from_pressed
test_bit-bitmap pressed j h = ground (
  arith,
  test-set_usages j h pressed (replicate 32 0) refl,
  get_or-zeros 32 (j / 8),
  test_bit-zero (j % 8),
)

length-set_usages : (us : List ℕ) (b : Bytes) → length (set_usages us b) ≡ length b
unfolding set_usages
length-set_usages [] b = refl
length-set_usages (u ∷ us) b = length-set_usages us (set_usage u b) ∙ length-set_usage u b

pub length-bitmap : (pressed : List ℕ) → length (bitmap_from_pressed pressed) ≡ 32
unfolding bitmap_from_pressed
length-bitmap pressed = length-set_usages pressed (replicate 32 0)
