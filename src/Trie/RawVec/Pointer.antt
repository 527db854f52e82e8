-- ===== src/Trie/RawVec/Pointer.antt =====
-- The tagged pointer of `BoundedRawVec`, algors-trie/src/util.rs.
use Prim.Native.Nat.{bit_and, bit_or}
use algors.Prelude.{ℕ, ◌+◌, ◌-◌, ◌*◌, ◌/◌, ◌%◌, ◌^◌, ◌≤◌, ◌<◌, ◌≡◌, ap, ◌∙◌, arith, false, ◌==◌}
use algors.Prelude.Bits.{bit_and_step, bit_or_step}
use algors.Prelude.Indices.{bit_and-low}
use algors.Trie.Layout.RoundTrip.{bit_or_zero}
use algors.Trie.RawVec.{RawVec, cap_tag, capacity, as_mut_ptr}

-- All bits but the last three.
bit_and-high : (n : ℕ) → n < 2 ^ 64 → bit_and n (2 ^ 64 - 8) ≡ n / 8 * 8
bit_and-high n lt =
    let low : bit_and (n / 2 / 2 / 2) (2 ^ 61 - 1) ≡ n / 2 / 2 / 2 % 2 ^ 61 =
      bit_and-low 61 (n / 2 / 2 / 2) in
    omega (
      arith,
      bit_and_step n (2 ^ 64 - 8),
      bit_and_step (n / 2) (2 ^ 63 - 4),
      bit_and_step (n / 2 / 2) (2 ^ 62 - 2),
      low,
    )

-- The tag goes into bits that the pointer leaves free.
pub bit_or-tag : (p tag : ℕ) → p % 8 ≡ 0 → p < 2 ^ 64 → tag < 8 → bit_or p tag ≡ p + tag
bit_or-tag p tag even lt small =
    let none_left : tag / 2 / 2 / 2 ≡ 0 = omega arith in
    let high : bit_or (p / 2 / 2 / 2) (tag / 2 / 2 / 2) ≡ p / 2 / 2 / 2 =
      rw none_left (bit_or_zero 64 (p / 2 / 2 / 2) (omega arith)) in
    omega (
      arith,
      bit_or_step p tag,
      bit_or_step (p / 2) (tag / 2),
      bit_or_step (p / 2 / 2) (tag / 2 / 2),
      high,
    )

module _ (v : RawVec) (p tag : ℕ) (at : v.tagged ≡ p + tag) (even : p % 8 ≡ 0) (pos : 0 < p)
    (lt : p + 8 ≤ 2 ^ 64) (small : tag < 8) where
  pub cap_tag-exact : cap_tag v ≡ tag
  unfolding cap_tag
  cap_tag-exact = bit_and-low 3 v.tagged ∙ omega arith

  pub as_mut_ptr-exact : as_mut_ptr v ≡ p
  unfolding as_mut_ptr
  as_mut_ptr-exact = bit_and-high v.tagged (omega arith) ∙ omega arith

  pub capacity-exact : capacity v ≡ 2 ^ (tag + 1)
  unfolding capacity
  capacity-exact =
      let test : (v.tagged == 0) ≡ false = ground arith in
      rw test (ap (λ k. 2 ^ (k + 1)) cap_tag-exact)
