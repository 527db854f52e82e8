-- ===== src/Trie/Lcp/Correct.antt =====
-- `lcp` of algors-trie/src/util.rs computes the longest common prefix.
use algors.Prelude.{
  ℕ, zero, suc, ◌+◌, ◌-◌, ◌*◌, ◌/◌, ◌≤◌, ◌<◌, ◌≡◌, ◌≢◌, ◌⊎◌, inl, inr, refl, min, List, [], ◌∷◌,
  none, some, done, leb, ◌==◌, if◌then◌else◌, length, drop, length-drop, arith, true, Bool-cases,
}
use algors.Prelude.Words.{first_difference, first_difference-same_low, first_difference-low}
use algors.Trie.Bytes.{IsBytes, IsBytes-drop, common, common-le, common-drop}
use algors.Trie.Lcp.{word, read_unaligned, diff, compare_at, compare_tail, loop16, two_words, lcp}

-- The first place where two words of bytes differ is in the first byte that differs.
word_lem :
    (n : ℕ) (xs ys : List ℕ)
    → IsBytes xs
    → IsBytes ys
    → n ≤ length xs
    → n ≤ length ys
    → ((word n xs ≡ word n ys) × (n ≤ common xs ys))
      ⊎ ((word n xs ≢ word n ys)
          × (common xs ys < n)
          × (first_difference (n * 8) (word n xs) (word n ys) / 8 ≡ common xs ys))
unfolding word common
word_lem zero xs ys bx by hx hy = inl (refl, omega arith)
word_lem (suc n) [] ys bx by hx hy = absurd (omega arith)
word_lem (suc n) (x ∷ xs) [] bx by hx hy = absurd (omega arith)
word_lem (suc n) (x ∷ xs) (y ∷ ys) (x_byte, bx) (y_byte, by) hx hy =
    let bits : suc n * 8 ≡ 8 + n * 8 = omega arith in
    elim (Bool-cases (x == y)) [
      | inl same ↦
          let e : x ≡ y = ground arith in
          rw (bits, e)
            (elim (word_lem n xs ys bx by (omega arith) (omega arith)) [
              | inl h ↦ ground arith
              | inr h ↦
                  ground (arith, first_difference-same_low 8 (n * 8) y (word n xs) (word n ys))
            ])
      | inr other ↦
          rw (bits, other)
            (ground (arith, first_difference-low 8 (n * 8) x y (word n xs) (word n ys)))
    ]

-- The slices of one call: both of bytes, with at least `len` entries.
module _ (xs ys : List ℕ) (bx : IsBytes xs) (by : IsBytes ys) where
  abbrev size : ℕ
  size = min (length xs) (length ys)

  common-le-size : common xs ys ≤ size
  common-le-size = omega (arith, common-le xs ys)

  -- Two reads in bounds, where the slices agree up to `i`: `diff!` returns exactly if the common
  -- prefix ends inside the word, and then its length.
  compare_at_lem :
      (n i : ℕ)
      → i + n ≤ size
      → i ≤ common xs ys
      → compare_at n xs ys i
        ≡ done (if leb (i + n) (common xs ys) then none else some (common xs ys))
  unfolding compare_at read_unaligned diff
  compare_at_lem n i inside agreed =
      let split = common-drop i xs ys agreed in
      let fits_x : leb (i + n) (length xs) ≡ true = ground arith in
      let fits_y : leb (i + n) (length ys) ≡ true = ground arith in
      rw (fits_x, fits_y)
        (elim (word_lem n (drop i xs) (drop i ys) (IsBytes-drop i xs bx) (IsBytes-drop i ys by)
          (omega (arith, length-drop i xs)) (omega (arith, length-drop i ys))) [
            | inl h ↦ ground arith
            | inr h ↦ ground arith
          ])

  compare_tail_lem :
      (n : ℕ) → n ≤ size → size - n ≤ common xs ys → compare_tail n xs ys size ≡ done (common xs ys)
  unfolding compare_tail
  compare_tail_lem n fits agreed =
      rw (compare_at_lem n (size - n) (omega arith) agreed) (ground (arith, common-le-size))

  loop16_lem :
      (fuel i : ℕ)
      → size < fuel + i
      → 16 ≤ size
      → i ≤ size
      → i ≤ common xs ys
      → loop16 fuel xs ys size i ≡ done (common xs ys)
  unfolding loop16
  loop16_lem zero i f big lt agreed = absurd (omega arith)
  loop16_lem (suc fuel) i f big lt agreed = elim (Bool-cases (leb (i + 16) size)) [
    | inl more ↦
        rw (more, compare_at_lem 16 i (ground arith) agreed)
          (ground (arith, loop16_lem fuel (i + 16)))
    | inr last ↦ rw last (compare_tail_lem 16 big (ground arith))
  ]

  two_words_lem : (n : ℕ) → n ≤ size → size ≤ n + n → two_words n xs ys size ≡ done (common xs ys)
  unfolding two_words
  two_words_lem n fits small =
      rw (compare_at_lem n 0 (omega arith) (omega arith)) (ground (arith, compare_tail_lem n))

-- On two slices of bytes, `lcp` ends, reads only inside them, and returns the length of their
-- longest common prefix.
pub lcp-common : (xs ys : List ℕ) → IsBytes xs → IsBytes ys → lcp xs ys ≡ done (common xs ys)
unfolding lcp common
lcp-common [] ys bx by = ground arith
lcp-common (x ∷ xs) [] bx by = ground arith
lcp-common (x ∷ xs) (y ∷ ys) bx by =
    let len = size (x ∷ xs) (y ∷ ys) bx by in
    let two = two_words_lem (x ∷ xs) (y ∷ ys) bx by in
    ground
      (arith, loop16_lem (x ∷ xs) (y ∷ ys) bx by (len + 1) 0, two 8, two 4, two 2, common-le xs ys)
