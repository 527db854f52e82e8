-- ===== src/Trie/Bitmap/Laws.antt =====
-- The bitmap of algors-trie/src/node.rs as 256 digits, numbered by byte.
use Prim.Native.Nat.{bit_and, bit_or}
use algors.Prelude.{
  ℕ, zero, suc, ◌+◌, ◌-◌, ◌*◌, ◌/◌, ◌%◌, ◌^◌, ◌≤◌, ◌<◌, ◌≡◌, refl, ap, Bool, true, ◌&&◌, arith, ltb,
  ◌==◌, if◌then◌else◌,
}
use algors.Prelude.Bits.{
  bit, bit-lt, bit-or, bit-and, bit-pow, bit-hole, bit-zero, count_ones, sum_below, sum_below-ext,
  sum_below-add, sum_below-zero, count_ones-sum, count_ones-mask, bit_and-pow-eq_zero,
}
use algors.Trie.Bitmap.{
  Bitmap, empty, word_at, set_word, child_pos_from_byte, len_children, as_u32, child_exists,
  child_idx_from_pos, set_bit, clear_bit,
}

-- A test of each byte below `hi`, from the last one down.
holds_to : ℕ → (ℕ → Bool) → Bool
holds_to zero test = true
holds_to (suc hi) test = holds_to hi test && test hi

holds_to-at :
    (hi byte : ℕ) (test : ℕ → Bool) → byte < hi → holds_to hi test ≡ true → test byte ≡ true
unfolding holds_to
holds_to-at zero byte test lt all = absurd (omega arith)
holds_to-at (suc hi) byte test lt all = ground (arith, holds_to-at hi byte test)

bit_and_63 : (x : ℕ) → x < 256 → bit_and x 63 ≡ x % 64
unfolding holds_to
bit_and_63 x h = ground (arith, holds_to-at 256 x (λ x. bit_and x 63 == x % 64) h table)
  where
    table : holds_to 256 (λ x. bit_and x 63 == x % 64) ≡ true
    table = refl

bit_and_3 : (x : ℕ) → x < 4 → bit_and x 3 ≡ x
bit_and_3 zero h = refl
bit_and_3 (suc zero) h = refl
bit_and_3 (suc (suc zero)) h = refl
bit_and_3 (suc (suc (suc zero))) h = refl
bit_and_3 (suc (suc (suc (suc x)))) h = absurd (omega arith)

-- Whether the child of a byte is marked, as 0 or 1.
pub digit : Bitmap → ℕ → ℕ
digit m byte = bit (byte % 64) (word_at m (byte / 64))

pub child_pos_lem :
    (byte : ℕ) → byte < 256 → child_pos_from_byte byte ≡ record { idx = byte / 64; bit = byte % 64 }
unfolding child_pos_from_byte
child_pos_lem byte h = rw (bit_and_63 byte h)

pub child_exists-digit :
    (m : Bitmap) (byte : ℕ)
    → byte < 256
    → child_exists m (child_pos_from_byte byte) ≡ (digit m byte == 1)
unfolding child_exists digit
child_exists-digit m byte h =
    rw (child_pos_lem byte h, bit_and-pow-eq_zero (word_at m (byte / 64)) (byte % 64))
      (ground (arith, bit-lt (byte % 64) (word_at m (byte / 64))))

pub digit-empty : (byte : ℕ) → digit empty byte ≡ 0
unfolding digit word_at
digit-empty byte = ground (arith, bit-zero (byte % 64))

word_at-set_word :
    (m : Bitmap) (i j w : ℕ)
    → i < 4
    → j < 4
    → word_at (set_word m i w) j ≡ (if j == i then w else word_at m j)
unfolding word_at set_word
word_at-set_word m i j w hi hj = ground arith

pub digit-set_bit :
    (m : Bitmap) (byte j : ℕ)
    → byte < 256
    → j < 256
    → digit (set_bit m (child_pos_from_byte byte)) j ≡ (if j == byte then 1 else digit m j)
unfolding digit set_bit
digit-set_bit m byte j hb hj = rw (child_pos_lem byte hb) (
    ground (
      arith,
      word_at-set_word m (byte / 64) (j / 64) (bit_or (word_at m (byte / 64)) (2 ^ (byte % 64))),
      bit-or (j % 64) (word_at m (byte / 64)) (2 ^ (byte % 64)),
      bit-pow (j % 64) (byte % 64),
      bit-lt (j % 64) (word_at m (byte / 64)),
    ))

pub digit-clear_bit :
    (m : Bitmap) (byte j : ℕ)
    → byte < 256
    → j < 256
    → digit (clear_bit m (child_pos_from_byte byte)) j ≡ (if j == byte then 0 else digit m j)
unfolding digit clear_bit
digit-clear_bit m byte j hb hj =
    let hole : ℕ = 2 ^ 64 - 1 - 2 ^ (byte % 64) in
    rw (child_pos_lem byte hb) (
      ground (
        arith,
        word_at-set_word m (byte / 64) (j / 64) (bit_and (word_at m (byte / 64)) hole),
        bit-and (j % 64) (word_at m (byte / 64)) hole,
        bit-hole (j % 64) 64 (byte % 64),
        bit-lt (j % 64) (word_at m (byte / 64)),
      ))

block :
    (m : Bitmap) (i b : ℕ)
    → i < 4
    → b ≤ 64
    → sum_below b (λ j. digit m (64 * i + j)) ≡ sum_below b (λ j. bit j (word_at m i))
unfolding digit
block m i b hi hb =
    sum_below-ext b (λ j. bit ((64 * i + j) % 64) (word_at m ((64 * i + j) / 64)))
      (λ j. bit j (word_at m i))
      λ j lt.
        let low : (64 * i + j) % 64 ≡ j = omega arith in
        let high : (64 * i + j) / 64 ≡ i = omega arith in rw (low, high)

-- The digits of the first `i` words.
words_below : (m : Bitmap) (i : ℕ) → ℕ
words_below m zero = 0
words_below m (suc i) = words_below m i + count_ones 64 (word_at m i)

words_below-sum : (m : Bitmap) (i : ℕ) → i ≤ 4 → sum_below (64 * i) (digit m) ≡ words_below m i
unfolding words_below
words_below-sum m zero h = omega (arith, sum_below-zero 0 (digit m) λ j lt. absurd (omega arith))
words_below-sum m (suc i) h =
    let split : 64 * suc i ≡ 64 * i + 64 = omega arith in
    rw split (
      omega (
        arith,
        sum_below-add (64 * i) 64 (digit m),
        words_below-sum m i (omega arith),
        block m i 64 (omega arith) (omega arith),
        count_ones-sum 64 (word_at m i),
      ))

whole_words :
    (m : Bitmap) (i : ℕ)
    → i < 4
    → as_u32 (ltb 0 i) * count_ones 64 m.w0
        + as_u32 (ltb 1 i) * count_ones 64 m.w1
        + as_u32 (ltb 2 i) * count_ones 64 m.w2
      ≡ words_below m i
unfolding words_below word_at
whole_words m zero h = omega arith
whole_words m (suc zero) h = omega arith
whole_words m (suc (suc zero)) h = omega arith
whole_words m (suc (suc (suc zero))) h = omega arith
whole_words m (suc (suc (suc (suc i)))) h = absurd (omega arith)

-- For a byte, `child_idx_from_pos` counts the marked bytes below it.
pub child_idx-sum :
    (m : Bitmap) (byte : ℕ)
    → byte < 256
    → child_idx_from_pos m (child_pos_from_byte byte) ≡ sum_below byte (digit m)
unfolding child_idx_from_pos
child_idx-sum m byte h =
    let i = byte / 64 in
    let b = byte % 64 in
    let whole : 64 * i + b ≡ byte = omega arith in
    let small : i < 4 = omega arith in
    rw (child_pos_lem byte h, bit_and_3 i small, whole_words m i small)
      (omega (
        arith,
        ap (λ k. sum_below k (digit m)) whole,
        sum_below-add (64 * i) b (digit m),
        words_below-sum m i (omega arith),
        block m i b small (omega arith),
        count_ones-mask 64 (word_at m i) b (omega arith),
      ))

-- `len_children` counts the marked bytes.
pub len_children-sum : (m : Bitmap) → len_children m ≡ sum_below 256 (digit m)
unfolding len_children words_below word_at
len_children-sum m = omega (arith, words_below-sum m 4 (omega arith))
