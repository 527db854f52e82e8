-- ===== src/Trie/Keyed.antt =====
-- Lists sorted by a key below a bound: lookup by key, the place of a key, and what insertion,
-- replacement and removal at that place do to lookup.
use algors.Prelude.{
  ℕ, zero, suc, ◌+◌, ◌≤◌, ◌<◌, ◌≡◌, refl, ap, List, [], ◌∷◌, Option, none, some, arith, ltb, ◌==◌,
  if◌then◌else◌, length, get_elem?, set, false, Bool-cases, inl, inr,
}
use algors.Prelude.Bits.{sum_below, sum_below-zero}

module _ {ℓ} {A : Type ℓ} where
  -- `ptr::copy` one place up from `i`, and a write at `i`.
  abbrev pub insert_at : List A → ℕ → A → List A
  insert_at xs zero x = x ∷ xs
  insert_at [] (suc i) x = x ∷ []
  insert_at (y ∷ xs) (suc i) x = y ∷ insert_at xs i x

  -- The entry at `i` is read out, and those after it move one place down.
  abbrev pub remove_at : List A → ℕ → List A
  remove_at [] i = []
  remove_at (y ∷ xs) zero = xs
  remove_at (y ∷ xs) (suc i) = y ∷ remove_at xs i

module _ {ℓ} {A : Type ℓ} where
  pub length-insert_at :
      (xs : List A) (i : ℕ) (x : A) → i ≤ length xs → length (insert_at xs i x) ≡ suc (length xs)
  length-insert_at xs zero x h = refl
  length-insert_at [] (suc i) x h = refl
  length-insert_at (y ∷ xs) (suc i) x h = ap suc (length-insert_at xs i x (omega arith))

-- Whether something was found, as 0 or 1.
abbrev pub mark {ℓ} : {A : Type ℓ} → Option A → ℕ
mark none = 0
mark (some a) = 1

-- One more marked key adds one to every count that reaches past it.
sum-mark :
    (b k : ℕ) (f g : ℕ → ℕ)
    → f k ≡ 0
    → ((j : ℕ) → g j ≡ (if k == j then 1 else f j))
    → sum_below b g ≡ sum_below b f + (if ltb k b then 1 else 0)
unfolding sum_below
sum-mark zero k f g h e = ground arith
sum-mark (suc b) k f g h e = ground (arith, sum-mark b k f g h e, e b)

module _ {ℓ} {A : Type ℓ} (key : A → ℕ) where
  -- The keys ascend, from `lo` on, and stay below `hi`.
  abbrev pub Ascending : ℕ → ℕ → List A → Type 0
  Ascending lo hi [] = Unit {0}
  Ascending lo hi (x ∷ xs) = (lo ≤ key x) × (key x < hi) × Ascending (suc (key x)) hi xs

  -- No more keys than numbers from `lo` on and below `hi`.
  pub Ascending-length :
      (lo hi : ℕ) (xs : List A) → lo ≤ hi → Ascending lo hi xs → lo + length xs ≤ hi
  Ascending-length lo hi [] h a = omega arith
  Ascending-length lo hi (x ∷ xs) h a =
      omega (arith, Ascending-length (suc (key x)) hi xs (omega arith) a.2)

  unfoldable pub find : ℕ → List A → Option A
  find j [] = none
  find j (x ∷ xs) = if key x == j then some x else find j xs

  -- How many keys are below `j`.
  unfoldable pub place : ℕ → List A → ℕ
  place j [] = 0
  place j (x ∷ xs) = if ltb (key x) j then suc (place j xs) else 0

  pub Ascending-mono :
      (lo lo' hi : ℕ) (xs : List A) → lo' ≤ lo → Ascending lo hi xs → Ascending lo' hi xs
  Ascending-mono lo lo' hi [] h a = tt
  Ascending-mono lo lo' hi (x ∷ xs) h a = (omega arith, a.1, a.2)

  pub find-below : (j lo hi : ℕ) (xs : List A) → Ascending lo hi xs → j < lo → find j xs ≡ none
  unfolding find
  find-below j lo hi [] a h = refl
  find-below j lo hi (x ∷ xs) a h = ground (arith, find-below j (suc (key x)) hi xs a.2)

  pub find-key : (j : ℕ) (xs : List A) {c : A} → find j xs ≡ some c → key c ≡ j
  unfolding find
  find-key j [] e = cc
  find-key j (x ∷ xs) {c} e = ground (arith, find-key j xs {c = c})

  pub place-below : (b lo hi : ℕ) (xs : List A) → Ascending lo hi xs → b ≤ lo → place b xs ≡ 0
  unfolding place
  place-below b lo hi [] a h = refl
  place-below b lo hi (x ∷ xs) a h = ground arith

  -- The place of `b` is the count of the keys below it.
  pub place-sum :
      (b lo hi : ℕ) (xs : List A)
      → Ascending lo hi xs
      → sum_below b (λ j. mark (find j xs)) ≡ place b xs
  unfolding find place
  place-sum b lo hi [] a = sum_below-zero b _ λ j lt. refl
  place-sum b lo hi (x ∷ xs) a = ground (
    arith,
    sum-mark b (key x) (λ j. mark (find j xs)) (λ j. mark (find j (x ∷ xs)))
        (ap mark (find-below (key x) (suc (key x)) hi xs a.2 (omega arith))) (λ j. ground arith),
    place-sum b (suc (key x)) hi xs a.2,
    place-below b (suc (key x)) hi xs a.2,
  )

  pub place-length :
      (b lo hi : ℕ) (xs : List A) → Ascending lo hi xs → hi ≤ b → place b xs ≡ length xs
  unfolding place
  place-length b lo hi [] a h = refl
  place-length b lo hi (x ∷ xs) a h = ground (arith, place-length b (suc (key x)) hi xs)

  pub place-le : (b : ℕ) (xs : List A) → place b xs ≤ length xs
  unfolding place
  place-le b [] = omega arith
  place-le b (x ∷ xs) = ground (arith, place-le b xs)

  pub find-place :
      (b lo hi : ℕ) (xs : List A) (c : A)
      → Ascending lo hi xs
      → find b xs ≡ some c
      → (get_elem? xs (place b xs) ≡ some c) × (place b xs < length xs)
  unfolding find place
  find-place b lo hi [] c a e = cc
  find-place b lo hi (x ∷ xs) c a e =
      ground (arith, find-place b (suc (key x)) hi xs c, find-below b (suc (key x)) hi xs)

  pub insert_at-place :
      (lo hi : ℕ) (xs : List A) (c : A)
      → Ascending lo hi xs
      → lo ≤ key c
      → key c < hi
      → find (key c) xs ≡ none
      → Ascending lo hi (insert_at xs (place (key c) xs) c)
        × ((j : ℕ)
            → find j (insert_at xs (place (key c) xs) c)
              ≡ (if key c == j then some c else find j xs))
  unfolding find place
  insert_at-place lo hi [] c a low high e = (ground arith, λ j. ground arith)
  insert_at-place lo hi (x ∷ xs) c a low high e =
      let ih = insert_at-place (suc (key x)) hi xs c a.2 in
      elim (Bool-cases (ltb (key x) (key c))) [
        | inl later ↦
            let rest = ih (ground arith) high (ground arith) in
            rw later (
              (a.0, a.1, rest.0),
              λ j. elim (Bool-cases (key x == j)) [
                | inl here ↦ let past : (key c == j) ≡ false = ground arith in rw (here, past)
                | inr other ↦ rw other (rest.1 j)
              ],
            )
        | inr first ↦ rw first ((low, high, (ground arith, a.1, a.2)), λ j. refl)
      ]

  pub set-place :
      (lo hi : ℕ) (xs : List A) (c d : A)
      → Ascending lo hi xs
      → find (key c) xs ≡ some d
      → Ascending lo hi (set xs (place (key c) xs) c)
        × ((j : ℕ)
            → find j (set xs (place (key c) xs) c) ≡ (if key c == j then some c else find j xs))
  unfolding find place
  set-place lo hi [] c d a e = cc
  set-place lo hi (x ∷ xs) c d a e =
      let below = find-below (key c) (suc (key x)) hi xs a.2 in
      elim (Bool-cases (ltb (key x) (key c))) [
        | inl later ↦
            let rest = set-place (suc (key x)) hi xs c d a.2 (ground arith) in
            rw later ((a.0, a.1, rest.0), λ j. ground (arith, rest.1 j))
        | inr first ↦
            let same : key x ≡ key c = ground arith in
            rw first ((omega arith, omega arith, rw (← same) a.2), λ j. ground arith)
      ]

  pub remove_at-place :
      (lo hi b : ℕ) (xs : List A) (d : A)
      → Ascending lo hi xs
      → find b xs ≡ some d
      → Ascending lo hi (remove_at xs (place b xs))
        × ((j : ℕ) → find j (remove_at xs (place b xs)) ≡ (if b == j then none else find j xs))
  unfolding find place
  remove_at-place lo hi b [] d a e = cc
  remove_at-place lo hi b (x ∷ xs) d a e =
      let below = find-below b (suc (key x)) hi xs a.2 in
      elim (Bool-cases (ltb (key x) b)) [
        | inl later ↦
            let rest = remove_at-place (suc (key x)) hi b xs d a.2 (ground arith) in
            rw later ((a.0, a.1, rest.0), λ j. ground (arith, rest.1 j))
        | inr first ↦
            let same : key x ≡ b = ground arith in
            rw first (
              Ascending-mono (suc (key x)) lo hi xs (omega arith) a.2,
              λ j. ground (arith, find-below j (suc (key x)) hi xs a.2),
            )
      ]
