-- ===== src/Prelude/Indices.antt =====
-- Counters of 64 bits that wrap around, and the slots of a ring whose size is a power of two.
use Prim.Native.Nat.{bit_and}
use native.Mathlib.Nat.{
  pow-suc, mod-lt, mod-eq_of_lt, mod-add-mod, mod-eq-sub-mod, mul-add-mod_self_left, mod-mod_of_dvd,
  div-add-mod,
}
use algors.Prelude.{
  ℕ, zero, suc, ◌+◌, ◌-◌, ◌*◌, ◌/◌, ◌%◌, ◌^◌, ◌≤◌, ◌<◌, ◌≡◌, ◌≢◌, arith, sym, ap, ◌∙◌, dec_lt,
}
use algors.Prelude.Bits.{bit_and_step, bit_and-zero_below, pow-pos}

-- The number of values of a `usize`.
abbrev pub usize_values : ℕ
usize_values = 2 ^ 64

unfoldable pub wrapping_sub : ℕ → ℕ → ℕ
wrapping_sub a b = (a + usize_values - b) % usize_values

unfoldable pub wrapping_add : ℕ → ℕ → ℕ
wrapping_add a b = (a + b) % usize_values

-- Counters that are less than a word apart are subtracted exactly.
pub wrapping_sub-exact :
    (b d : ℕ) → d < usize_values → wrapping_sub ((b + d) % usize_values) (b % usize_values) ≡ d
unfolding wrapping_sub
wrapping_sub-exact b d lt = omega arith

pub wrapping_add-exact :
    (b d : ℕ) → d < usize_values → wrapping_add (b % usize_values) d ≡ (b + d) % usize_values
unfolding wrapping_add
wrapping_add-exact b d lt = omega arith

pub remainder_unique : (n d q r : ℕ) → n ≡ d * q + r → r < d → n % d ≡ r
remainder_unique n d q r e lt = rw e (mul-add-mod_self_left d q r ∙ mod-eq_of_lt lt)

pow-add : (k d : ℕ) → 2 ^ (k + d) ≡ 2 ^ k * 2 ^ d
pow-add k zero = let e : k + 0 ≡ k = omega arith in rw e (omega arith)
pow-add k (suc d) =
    let e : k + suc d ≡ suc (k + d) = omega arith in
    rw (e, pow-suc 2 (k + d), pow-suc 2 d, pow-add k d) (grind arith)

-- The slot of a counter is that of the count that wrapped around to it.
pub wrapped-slot : (k n : ℕ) → k ≤ 64 → n % usize_values % 2 ^ k ≡ n % 2 ^ k
wrapped-slot k n le = mod-mod_of_dvd (2 ^ k) n ∣ (2 ^ (64 - k), whole) ∣₁
  where
    whole : usize_values ≡ 2 ^ k * 2 ^ (64 - k)
    whole = let e : k + (64 - k) ≡ 64 = omega arith in ap (λ m. 2 ^ m) (sym e) ∙ pow-add k (64 - k)

-- `num & (len - 1)` is the remainder, for a length that is a power of two.
pub bit_and-low : (k n : ℕ) → bit_and n (2 ^ k - 1) ≡ n % 2 ^ k
bit_and-low zero n = omega (arith, bit_and-zero_below (suc n) n (omega arith))
bit_and-low (suc k) n = rw (pow-suc 2 k) (
    let half : (2 ^ k * 2 - 1) / 2 ≡ 2 ^ k - 1 = omega (arith, pow-pos k) in
    let step = bit_and_step n (2 ^ k * 2 - 1) in
    let odd : (2 ^ k * 2 - 1) % 2 ≡ 1 = omega (arith, pow-pos k) in
    let whole : n ≡ 2 ^ k * 2 * (n / 2 / 2 ^ k) + (n / 2 % 2 ^ k * 2 + n % 2) =
      grind (arith, div-add-mod (n / 2) (2 ^ k), div-add-mod n 2) in
    let small : n / 2 % 2 ^ k * 2 + n % 2 < 2 ^ k * 2 =
      omega (arith, mod-lt (n / 2) {m = 2 ^ k} (pow-pos k)) in
    step
    ∙ rw (half, odd, bit_and-low k (n / 2)) (omega arith)
    ∙ sym (remainder_unique n (2 ^ k * 2) (n / 2 / 2 ^ k) (n / 2 % 2 ^ k * 2 + n % 2) whole small))

-- Fewer than `c` steps round a ring of `c` slots do not come back.
pub slot-ne : (c h i d : ℕ) → 0 < d → d < c → (h + i) % c ≢ (h + (i + d)) % c
slot-ne c h i d pos lt e = elim (dec_lt ((h + i) % c + d) c) [
  | yes p ↦ omega (arith, moved, mod-eq_of_lt p)
  | no p ↦ omega (
    arith,
    moved,
    mod-lt (h + i) {m = c} (omega arith),
    mod-eq-sub-mod {n = (h + i) % c + d} {m = c} (omega arith),
    mod-eq_of_lt {n = (h + i) % c + d - c} {m = c}
        (omega (arith, mod-lt (h + i) {m = c} (omega arith))),
  )
]
  where
    moved : (h + i) % c ≡ ((h + i) % c + d) % c
    moved = e ∙ ap (λ k. k % c) (omega arith) ∙ sym (mod-add-mod (h + i) c d)
