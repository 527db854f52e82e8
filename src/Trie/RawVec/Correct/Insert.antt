-- ===== src/Trie/RawVec/Correct/Insert.antt =====
-- `insert` of `BoundedRawVec`, algors-trie/src/util.rs.
use algors.Prelude.{
  ℕ, zero, suc, ◌+◌, ◌%◌, ◌^◌, ◌≤◌, ◌<◌, ◌≡◌, ◌⊎◌, refl, sym, ap, ◌∙◌, subst, inl, inr, List, [],
  ◌∷◌, ◌++◌, Option, none, some, Bool, true, false, Bool-cases, arith, panic, ◌==◌, if◌then◌else◌,
  length, length-take, take, drop, take-append-drop, dec_lt, Yields, yields, Yields-bind,
}
use algors.Prelude.Bits.{pow_mono}
use algors.Trie.Keyed.{insert_at}
use algors.Trie.RawVec.{RawVec, Memory, capacity, grow, shift, insert}
use algors.Trie.RawVec.Pointer.{cap_tag-exact, capacity-exact}
use algors.Trie.RawVec.Correct.{filled, IsTagged, IsVec, unallocated, allocated}
use algors.Trie.RawVec.Correct.Gap.{HasGap, write-IsVec, shift-HasGap}
use algors.Trie.RawVec.Correct.Grow.{capacity-none, next_tag-last, grow-HasGap}

insert_at-split {ℓ} :
    {A : Type ℓ} (xs : List A) (i : ℕ) (x : A)
    → i ≤ length xs
    → take i xs ++ x ∷ drop i xs ≡ insert_at xs i x
insert_at-split xs zero x le = refl
insert_at-split [] (suc i) x le = absurd (omega arith)
insert_at-split (y ∷ xs) (suc i) x le = ap (◌∷◌ y) (insert_at-split xs i x (omega arith))

pow-le : (tag : ℕ) → tag < 8 → 2 ^ (tag + 1) ≤ 256
pow-le tag lt = elim (dec_lt tag 7) [
  | yes below ↦ omega (arith, pow_mono (tag + 1) 8 (omega arith))
  | no above ↦ let e : tag ≡ 7 = omega arith in omega (arith, ap (λ k. 2 ^ (k + 1)) e)
]

tag-top : (tag : ℕ) → tag < 8 → 256 ≤ 2 ^ (tag + 1) → tag ≡ 7
tag-top tag lt le = elim (dec_lt tag 7) [
  | yes below ↦ absurd (omega (arith, pow_mono (tag + 1) 8 (omega arith)))
  | no above ↦ omega arith
]

module _ {ℓ} {A : Type ℓ} where
  -- The capacity of the block, and the bound on it.
  full-capacity :
      (v : RawVec) (mem : Memory A) (xs : List A)
      → IsVec v mem xs
      → (length xs ≤ capacity v) × (capacity v ≤ 256)
  full-capacity v mem xs (unallocated null empty) =
      let room = capacity-none v null in (omega (arith, ap length empty), omega arith)
  full-capacity v mem xs (allocated p tag rest tagged cells size) =
      let room = capacity-exact v p tag tagged.at tagged.even tagged.pos tagged.lt tagged.small in
      (omega arith, omega (arith, pow-le tag tagged.small))

  -- A block that is not full has a cell after the elements.
  with_room :
      (checks : Bool) (l r : List A) (v : RawVec) (mem : Memory A) (p tag : ℕ)
      (rest : List (Option A))
      → IsTagged v p tag
      → mem p ≡ some (filled (l ++ r) ++ rest)
      → length (l ++ r) + length rest ≡ 2 ^ (tag + 1)
      → (length (l ++ r) == 2 ^ (tag + 1)) ≡ false
      → Yields (HasGap l r) (shift checks mem v (length l) (length (l ++ r)))
  with_room checks l r v mem p tag [] tagged cells size free = absurd (ground arith)
  with_room checks l r v mem p tag (c ∷ rest) tagged cells size free =
      shift-HasGap checks l r p tag v mem c rest tagged cells size

  shift-Yields :
      (checks : Bool) (l r : List A) (v : RawVec) (mem : Memory A)
      → IsVec v mem (l ++ r)
      → (length (l ++ r) == capacity v) ≡ false
      → Yields (HasGap l r) (shift checks mem v (length l) (length (l ++ r)))
  shift-Yields checks l r v mem (unallocated null empty) free =
      let clash : (length (l ++ r) == capacity v) ≡ true =
        let none_now = capacity-none v null in ground (arith, ap length empty) in
      let both : true ≡ false = sym clash ∙ free in cc
  shift-Yields checks l r v mem (allocated p tag rest tagged cells size) free =
      let room = capacity-exact v p tag tagged.at tagged.even tagged.pos tagged.lt tagged.small in
      with_room checks l r v mem p tag rest tagged cells size
        (ap (λ n. length (l ++ r) == n) (sym room) ∙ free)

module _ {ℓ} {A : Type ℓ} (checks : Bool) (pt : ℕ) (mem : Memory A) (v : RawVec) (pos : 0 < pt)
    (even : pt % 8 ≡ 0) (in_word : pt + 8 ≤ 2 ^ 64) (unused : mem pt ≡ none) where
  insert-between :
      (l r : List A) (x : A)
      → IsVec v mem (l ++ r)
      → length (l ++ r) < 256
      → Yields
          (λ (v', mem'). IsVec v' mem' (l ++ x ∷ r))
          (insert checks pt mem v (length l) x (length (l ++ r)))
  unfolding insert
  insert-between l r x vec few =
      Yields-bind (gap (Bool-cases (length (l ++ r) == capacity v)))
        λ (p, v', mem') there. Yields-bind (write-IsVec l r x p v' mem' there) λ m made. yields made
    where
      gap :
          ((length (l ++ r) == capacity v) ≡ true) ⊎ ((length (l ++ r) == capacity v) ≡ false)
          → Yields (HasGap l r) (
              if length (l ++ r) == capacity v
              then grow checks pt mem v (length l) (length (l ++ r))
              else shift checks mem v (length l) (length (l ++ r)))
      gap (inl full) =
          rw full (grow-HasGap checks l r pt v mem pos even in_word unused vec (ground arith) few)
      gap (inr free) = rw free (shift-Yields checks l r v mem vec free)

  insert-IsVec :
      (xs : List A) (i : ℕ) (x : A)
      → IsVec v mem xs
      → i ≤ length xs
      → length xs < 256
      → Yields
          (λ (v', mem'). IsVec v' mem' (insert_at xs i x))
          (insert checks pt mem v i x (length xs))
  insert-IsVec xs i x vec le few =
      let whole = take-append-drop i xs in
      let at : length (take i xs) ≡ i = omega (arith, length-take i xs) in
      let made =
        insert-between (take i xs) (drop i xs) x (subst (IsVec v mem) (sym whole) vec)
          (omega (arith, ap length whole)) in
      subst
        (λ n.
          Yields (λ (v', mem'). IsVec v' mem' (insert_at xs i x))
            (insert checks pt mem v n x (length xs)))
        at
        (subst
          (λ zs.
            Yields (λ (v', mem'). IsVec v' mem' (insert_at xs i x))
              (insert checks pt mem v (length (take i xs)) x (length zs)))
          whole
          (subst
            (λ ys.
              Yields (λ (v', mem'). IsVec v' mem' ys)
                (insert checks pt mem v (length (take i xs)) x (length (take i xs ++ drop i xs))))
            (insert_at-split xs i x le) made))

  insert-full :
      (xs : List A) (i : ℕ) (x : A)
      → IsVec v mem xs
      → length xs ≡ 256
      → insert checks pt mem v i x (length xs) ≡ panic
  unfolding insert grow
  insert-full xs i x (unallocated null empty) full = absurd (omega (arith, ap length empty))
  insert-full xs i x (allocated p tag rest tagged cells size) full =
      let room = capacity-exact v p tag tagged.at tagged.even tagged.pos tagged.lt tagged.small in
      let top = tag-top tag tagged.small (omega arith) in
      let test : (length xs == capacity v) ≡ true = ground (arith, pow-le tag tagged.small) in
      rw (
        test,
        next_tag-last v (omega arith)
            (cap_tag-exact v p tag tagged.at tagged.even tagged.pos tagged.lt tagged.small ∙ top),
      )

  -- On a vector of the elements `xs`, the capacity is at least their number and at most 256. If the
  -- allocator's pointer is a multiple of 8, not null, in a word, and that of no block yet, `insert` at an index
  -- up to their number ends, below 256 elements, with a vector of the list in which the element is inserted
  -- there, and at 256 in a panic.
  pub insert-Inserts :
      (xs : List A) (i : ℕ) (x : A)
      → IsVec v mem xs
      → i ≤ length xs
      → (length xs ≤ capacity v)
        × (capacity v ≤ 256)
        × (((length xs < 256)
              × Yields
                  (λ (v', mem'). IsVec v' mem' (insert_at xs i x))
                  (insert checks pt mem v i x (length xs)))
            ⊎ ((length xs ≡ 256) × (insert checks pt mem v i x (length xs) ≡ panic)))
  insert-Inserts xs i x vec le =
      let (low, high) = full-capacity v mem xs vec in
      (
        low,
        high,
        elim (dec_lt (length xs) 256) [
          | yes few ↦ inl (few, insert-IsVec xs i x vec le few)
          | no many ↦
              let full : length xs ≡ 256 = omega arith in inr (full, insert-full xs i x vec full)
        ],
      )
