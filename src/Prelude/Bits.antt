-- ===== src/Prelude/Bits.antt =====
-- Words as rows of binary digits: `&`, `|` and masks digit by digit, and `count_ones` as a sum.
use Prim.Native.Nat.{
  digits, differ, max, bit_and, bit_or, bit_xor, bit_and-bitwise, bit_or-bitwise, bit_xor-bitwise,
}
use native.Mathlib.Nat.{pow-suc}
use algors.Prelude.{
  ℕ, zero, suc, ◌+◌, ◌-◌, ◌*◌, ◌/◌, ◌%◌, ◌^◌, ◌≤◌, ◌<◌, ◌≡◌, refl, sym, ap, ap₂, ◌∙◌, min, arith,
  ltb, ◌==◌, ℕ_discrete, if◌then◌else◌,
}

-- An operation on binary digits: `f` on each pair of them, and `rest` once the first number is 0.
module _ (f : ℕ → ℕ → ℕ) (rest : ℕ → ℕ) (op : ℕ → ℕ → ℕ)
    (law : (x y : ℕ) → op x y ≡ digits rest f x x y)
    (rest_law : (y : ℕ) → rest y ≡ rest (y / 2) * 2 + f 0 (y % 2)) where
  at_zero : (k y : ℕ) → digits rest f k 0 y ≡ rest y
  at_zero zero y = refl
  at_zero (suc k) y = refl

  -- As many rounds as the first number is large are enough.
  settled : (k l x y : ℕ) → x ≤ k → x ≤ l → digits rest f k x y ≡ digits rest f l x y
  settled k l zero y p q = at_zero k y ∙ sym (at_zero l y)
  settled zero l (suc x) y p q = absurd (omega arith)
  settled (suc k) zero (suc x) y p q = absurd (omega arith)
  settled (suc k) (suc l) (suc x) y p q =
      ap (λ d. d * 2 + f (suc x % 2) (y % 2))
        (settled k l (suc x / 2) (y / 2) (omega arith) (omega arith))

  -- The lowest digit, and the others.
  lowest : (x y : ℕ) → op x y ≡ op (x / 2) (y / 2) * 2 + f (x % 2) (y % 2)
  lowest zero y = rw (law 0 y, law 0 (y / 2)) (rest_law y)
  lowest (suc x) y =
      let half = settled x (suc x / 2) (suc x / 2) (y / 2) (omega arith) (omega arith) in
      rw (law (suc x) y, law (suc x / 2) (y / 2)) (ap (λ d. d * 2 + f (suc x % 2) (y % 2)) half)

pub bit_and_step : (x y : ℕ) → bit_and x y ≡ bit_and (x / 2) (y / 2) * 2 + min (x % 2) (y % 2)
bit_and_step = lowest min (λ y. 0) bit_and (λ x y. bit_and-bitwise x y) (λ y. omega arith)

pub bit_or_step : (x y : ℕ) → bit_or x y ≡ bit_or (x / 2) (y / 2) * 2 + max (x % 2) (y % 2)
bit_or_step = lowest max (λ y. y) bit_or (λ x y. bit_or-bitwise x y) (λ y. omega arith)

pub bit_xor_step : (x y : ℕ) → bit_xor x y ≡ bit_xor (x / 2) (y / 2) * 2 + differ (x % 2) (y % 2)
bit_xor_step = lowest differ (λ y. y) bit_xor (λ x y. bit_xor-bitwise x y) (λ y. omega arith)

-- Digit `j` of a number.
pub bit : ℕ → ℕ → ℕ
bit zero w = w % 2
bit (suc j) w = bit j (w / 2)

pub bit-lt : (j w : ℕ) → bit j w < 2
unfolding bit
bit-lt zero w = omega arith
bit-lt (suc j) w = bit-lt j (w / 2)

pub bit-and : (j a b : ℕ) → bit j (bit_and a b) ≡ min (bit j a) (bit j b)
unfolding bit
bit-and zero a b = omega (arith, bit_and_step a b)
bit-and (suc j) a b =
    let high : bit_and a b / 2 ≡ bit_and (a / 2) (b / 2) = omega (arith, bit_and_step a b) in
    rw high (bit-and j (a / 2) (b / 2))

pub bit-or : (j a b : ℕ) → bit j (bit_or a b) ≡ max (bit j a) (bit j b)
unfolding bit
bit-or zero a b = omega (arith, bit_or_step a b)
bit-or (suc j) a b =
    let high : bit_or a b / 2 ≡ bit_or (a / 2) (b / 2) = omega (arith, bit_or_step a b) in
    rw high (bit-or j (a / 2) (b / 2))

pub bit-zero : (j : ℕ) → bit j 0 ≡ 0
unfolding bit
bit-zero zero = refl
bit-zero (suc j) = bit-zero j

-- `1 << b`
pub bit-pow : (j b : ℕ) → bit j (2 ^ b) ≡ (if j == b then 1 else 0)
unfolding bit
bit-pow zero zero = refl
bit-pow zero (suc b) = rw (pow-suc 2 b) (ground arith)
bit-pow (suc j) zero = ground (arith, bit-zero j)
bit-pow (suc j) (suc b) =
    let half : 2 ^ suc b / 2 ≡ 2 ^ b = rw (pow-suc 2 b) (omega arith) in
    rw half (ground (arith, bit-pow j b))

pub pow-pos : (b : ℕ) → 0 < 2 ^ b
pow-pos zero = omega arith
pow-pos (suc b) = rw (pow-suc 2 b) (omega (arith, pow-pos b))

pub pow_mono : (b n : ℕ) → b < n → 2 ^ b < 2 ^ n
pow_mono b zero h = absurd (omega arith)
pow_mono zero (suc n) h = rw (pow-suc 2 n) (omega (arith, pow-pos n))
pow_mono (suc b) (suc n) h =
    rw (pow-suc 2 b, pow-suc 2 n) (omega (arith, pow_mono b n (omega arith)))

-- `(1 << b) - 1`
pub bit-mask : (j b : ℕ) → bit j (2 ^ b - 1) ≡ (if ltb j b then 1 else 0)
unfolding bit
bit-mask j zero = ground (arith, bit-zero j)
bit-mask zero (suc b) = rw (pow-suc 2 b) (ground (arith, pow-pos b))
bit-mask (suc j) (suc b) =
    let half : (2 ^ suc b - 1) / 2 ≡ 2 ^ b - 1 = rw (pow-suc 2 b) (omega (arith, pow-pos b)) in
    rw half (ground (arith, bit-mask j b))

-- `!(1 << b)`, in a word of `n` digits.
pub bit-hole :
    (j n b : ℕ)
    → b < n
    → bit j (2 ^ n - 1 - 2 ^ b) ≡ (if j == b then 0 else if ltb j n then 1 else 0)
unfolding bit
bit-hole j zero b h = absurd (omega arith)
bit-hole zero (suc n) zero h = rw (pow-suc 2 n) (ground (arith, pow-pos n))
bit-hole zero (suc n) (suc b) h =
    rw (pow-suc 2 n, pow-suc 2 b) (ground (arith, pow_mono b n (omega arith)))
bit-hole (suc j) (suc n) zero h =
    let half : (2 ^ suc n - 1 - 2 ^ 0) / 2 ≡ 2 ^ n - 1 =
      rw (pow-suc 2 n) (omega (arith, pow-pos n)) in
    rw half (ground (arith, bit-mask j n))
bit-hole (suc j) (suc n) (suc b) h =
    let half : (2 ^ suc n - 1 - 2 ^ suc b) / 2 ≡ 2 ^ n - 1 - 2 ^ b =
      rw (pow-suc 2 n, pow-suc 2 b) (omega (arith, pow_mono b n (omega arith))) in
    rw half (ground (arith, bit-hole j n b))

-- `u64::count_ones`, of the `n` lowest digits.
unfoldable pub count_ones : ℕ → ℕ → ℕ
count_ones zero w = 0
count_ones (suc n) w = w % 2 + count_ones n (w / 2)

-- The sum of `f 0`, …, `f (n - 1)`.
unfoldable pub sum_below : ℕ → (ℕ → ℕ) → ℕ
sum_below zero f = 0
sum_below (suc n) f = sum_below n f + f n

pub sum_below-ext :
    (n : ℕ) (f g : ℕ → ℕ) → ((j : ℕ) → j < n → f j ≡ g j) → sum_below n f ≡ sum_below n g
unfolding sum_below
sum_below-ext zero f g h = refl
sum_below-ext (suc n) f g h =
    ap₂ ◌+◌ (sum_below-ext n f g λ j lt. h j (omega arith)) (h n (omega arith))

pub sum_below-plus :
    (n : ℕ) (f g : ℕ → ℕ) → sum_below n (λ j. f j + g j) ≡ sum_below n f + sum_below n g
unfolding sum_below
sum_below-plus zero f g = omega arith
sum_below-plus (suc n) f g = omega (arith, sum_below-plus n f g)

pub sum_below-add :
    (m n : ℕ) (f : ℕ → ℕ) → sum_below (m + n) f ≡ sum_below m f + sum_below n (λ j. f (m + j))
unfolding sum_below
sum_below-add m zero f = let e : m + 0 ≡ m = omega arith in rw e (omega arith)
sum_below-add m (suc n) f =
    let e : m + suc n ≡ suc (m + n) = omega arith in rw e (omega (arith, sum_below-add m n f))

pub sum_below-front : (n : ℕ) (f : ℕ → ℕ) → sum_below (suc n) f ≡ f 0 + sum_below n (λ j. f (suc j))
unfolding sum_below
sum_below-front zero f = omega arith
sum_below-front (suc n) f = omega (arith, sum_below-front n f)

pub sum_below-zero : (n : ℕ) (f : ℕ → ℕ) → ((j : ℕ) → j < n → f j ≡ 0) → sum_below n f ≡ 0
unfolding sum_below
sum_below-zero zero f h = refl
sum_below-zero (suc n) f h =
    omega (arith, sum_below-zero n f λ j lt. h j (omega arith), h n (omega arith))

pub count_ones-sum : (n w : ℕ) → count_ones n w ≡ sum_below n (λ j. bit j w)
unfolding count_ones bit
count_ones-sum zero w = zero_terms
  where
    zero_terms : 0 ≡ sum_below 0 (λ j. bit j w)
    zero_terms = omega (arith, sum_below-zero 0 (λ j. bit j w) (λ j lt. absurd (omega arith)))
count_ones-sum (suc n) w = omega (arith, count_ones-sum n (w / 2), sum_below-front n (λ j. bit j w))

-- `(w & ((1 << b) - 1)).count_ones()`: the ones below digit `b`.
pub count_ones-mask :
    (n w b : ℕ) → b ≤ n → count_ones n (bit_and w (2 ^ b - 1)) ≡ sum_below b (λ j. bit j w)
count_ones-mask n w b h =
    let masked : ℕ → ℕ = λ j. bit j (bit_and w (2 ^ b - 1)) in
    let split : b + (n - b) ≡ n = omega arith in
    let low =
      sum_below-ext b masked (λ j. bit j w)
        λ j lt. ground (arith, bit-and j w (2 ^ b - 1), bit-mask j b, bit-lt j w) in
    let high =
      sum_below-zero (n - b) (λ j. masked (b + j))
        λ j lt. ground (arith, bit-and (b + j) w (2 ^ b - 1), bit-mask (b + j) b) in
    omega (
      arith,
      count_ones-sum n (bit_and w (2 ^ b - 1)),
      ap (λ k. sum_below k masked) split,
      sum_below-add b (n - b) masked,
      low,
      high,
    )

pub bit_and-zero_below : (n a : ℕ) → a < n → bit_and a 0 ≡ 0
bit_and-zero_below zero a h = absurd (omega arith)
bit_and-zero_below (suc n) zero h = refl
bit_and-zero_below (suc n) (suc a) h =
    omega (arith, bit_and_step (suc a) 0, bit_and-zero_below n (suc a / 2) (omega arith))

-- `w & (1 << b)` is that digit, in its place.
pub bit_and-pow : (w b : ℕ) → bit_and w (2 ^ b) ≡ bit b w * 2 ^ b
unfolding bit
bit_and-pow w zero =
    omega (arith, bit_and_step w 1, bit_and-zero_below (suc (w / 2)) (w / 2) (omega arith))
bit_and-pow w (suc b) = rw (pow-suc 2 b) (
    omega (
      arith,
      bit_and_step w (2 ^ b * 2),
      ap (λ (m : ℕ). bit_and (w / 2) m) (half b),
      bit_and-pow (w / 2) b,
    ))
  where
    half : (b : ℕ) → 2 ^ b * 2 / 2 ≡ 2 ^ b
    half b = omega arith

-- A mask tests its digit.
pub bit_and-pow-eq_zero : (w b : ℕ) → (bit_and w (2 ^ b) == 0) ≡ (bit b w == 0)
bit_and-pow-eq_zero w b = elim (ℕ_discrete (bit b w) 0) [
  | yes none_set ↦ rw (bit_and-pow w b, none_set) (ground arith)
  | no other ↦
      let one : bit b w ≡ 1 = omega (arith, bit-lt b w) in
      rw (bit_and-pow w b, one) (ground (arith, pow-pos b))
]
