-- ===== src/Prelude/Words.antt =====
-- The first place in which two words differ, by `^` and `trailing_zeros`.
use Prim.Native.Nat.{differ, bit_xor}
use native.Mathlib.Nat.{pow-suc}
use algors.Prelude.{
  ℕ, zero, suc, ◌+◌, ◌/◌, ◌%◌, ◌<◌, ◌*◌, ◌^◌, ◌≡◌, ◌≢◌, refl, arith, ◌==◌, if◌then◌else◌,
}
use algors.Prelude.Bits.{bit_xor_step}

-- `trailing_zeros` of a word of `n` bits.
unfoldable pub trailing_zeros : ℕ → ℕ → ℕ
trailing_zeros zero v = 0
trailing_zeros (suc n) v = if v % 2 == 0 then suc (trailing_zeros n (v / 2)) else 0

-- The place of the lowest digit in which two words of `n` bits differ.
abbrev pub first_difference : ℕ → ℕ → ℕ → ℕ
first_difference n a b = trailing_zeros n (bit_xor a b)

differ_of_bits : (p q : ℕ) → p < 2 → q < 2 → (differ p q == 0) ≡ (p == q)
differ_of_bits zero zero hp hq = refl
differ_of_bits zero (suc q) hp hq = ground arith
differ_of_bits (suc p) zero hp hq = ground arith
differ_of_bits (suc zero) (suc zero) hp hq = refl
differ_of_bits (suc (suc p)) q hp hq = absurd (omega arith)
differ_of_bits p (suc (suc q)) hp hq = absurd (omega arith)

differ-le : (p q : ℕ) → p < 2 → q < 2 → differ p q < 2
differ-le zero q hp hq = hq
differ-le (suc zero) zero hp hq = omega arith
differ-le (suc zero) (suc q) hp hq = omega arith
differ-le (suc (suc p)) q hp hq = absurd (omega arith)

first_difference_step :
    (n a b : ℕ)
    → first_difference (suc n) a b
      ≡ (if a % 2 == b % 2 then suc (first_difference n (a / 2) (b / 2)) else 0)
unfolding trailing_zeros
first_difference_step n a b =
    let small = differ-le (a % 2) (b % 2) (omega arith) (omega arith) in
    let low : bit_xor a b % 2 ≡ differ (a % 2) (b % 2) = omega (arith, bit_xor_step a b) in
    let high : bit_xor a b / 2 ≡ bit_xor (a / 2) (b / 2) = omega (arith, bit_xor_step a b) in
    rw (low, high, differ_of_bits (a % 2) (b % 2) (omega arith) (omega arith))

-- `r + 2 ^ k * a`, one digit down.
shift_half : (k r a : ℕ) → (r + 2 ^ suc k * a) / 2 ≡ r / 2 + 2 ^ k * a
shift_half k r a = rw (pow-suc 2 k) (omega arith)

shift_low : (k r a : ℕ) → (r + 2 ^ suc k * a) % 2 ≡ r % 2
shift_low k r a = rw (pow-suc 2 k) (omega arith)

first_difference_shift :
    (k n r s a b : ℕ)
    → first_difference (suc k + n) (r + 2 ^ suc k * a) (s + 2 ^ suc k * b) ≡ (
        if r % 2 == s % 2
        then suc (first_difference (k + n) (r / 2 + 2 ^ k * a) (s / 2 + 2 ^ k * b))
        else 0)
first_difference_shift k n r s a b =
    let up : suc k + n ≡ suc (k + n) = omega arith in
    rw (
      up,
      first_difference_step (k + n) (r + 2 ^ suc k * a) (s + 2 ^ suc k * b),
      shift_half k r a,
      shift_half k s b,
      shift_low k r a,
      shift_low k s b,
    )

-- Words with the same low `k` digits differ `k` places above where their high digits do.
pub first_difference-same_low :
    (k n r a b : ℕ)
    → r < 2 ^ k
    → first_difference (k + n) (r + 2 ^ k * a) (r + 2 ^ k * b) ≡ k + first_difference n a b
first_difference-same_low zero n r a b h =
    let left : r + 2 ^ 0 * a ≡ a = omega arith in
    let right : r + 2 ^ 0 * b ≡ b = omega arith in
    let count : 0 + n ≡ n = omega arith in rw (left, right, count) (omega arith)
first_difference-same_low (suc k) n r a b h = ground (
  arith,
  first_difference_shift k n r r a b,
  pow-suc 2 k,
  first_difference-same_low k n (r / 2) a b,
)

-- Words with different low `k` digits differ in one of these places.
pub first_difference-low :
    (k n r s a b : ℕ)
    → r < 2 ^ k
    → s < 2 ^ k
    → r ≢ s
    → first_difference (k + n) (r + 2 ^ k * a) (s + 2 ^ k * b) < k
first_difference-low zero n r s a b hr hs ne = absurd (omega arith)
first_difference-low (suc k) n r s a b hr hs ne = ground (
  arith,
  first_difference_shift k n r s a b,
  pow-suc 2 k,
  first_difference-low k n (r / 2) (s / 2) a b,
)
