-- ===== src/Trie/RawVec/Correct.antt =====
-- `BoundedRawVec` of algors-trie/src/util.rs does on its block what its operations do on a list.
pub mod Gap
pub mod Grow
pub mod Insert
pub mod Remove
pub mod Free
use mathlib.Core.List.{append_assoc}
use algors.Prelude.{
  ℕ, zero, suc, ◌+◌, ◌-◌, ◌%◌, ◌^◌, ◌≤◌, ◌<◌, ◌≡◌, ◌≢◌, refl, sym, ap, ◌∙◌, List, [], ◌∷◌, ◌++◌,
  Option, none, some, arith, true, false, done, leb, ◌==◌, if◌then◌else◌, length, length-append,
  get_elem?, take, drop, replicate,
}
use algors.Trie.RawVec.{RawVec, Memory, put, block, read, cells_at, store_at}

-- The pointer and the tag of a vector with a block.
pub record IsTagged (v : RawVec) (p tag : ℕ) : Type 0 where
  pub at : v.tagged ≡ p + tag
  pub even : p % 8 ≡ 0
  pub pos : 0 < p
  pub lt : p + 8 ≤ 2 ^ 64
  pub small : tag < 8

module _ {ℓ} {A : Type ℓ} where
  abbrev pub filled : List A → List (Option A)
  filled [] = []
  filled (x ∷ xs) = some x ∷ filled xs

  pub length-filled : (xs : List A) → length (filled xs) ≡ length xs
  length-filled [] = refl
  length-filled (x ∷ xs) = ap suc (length-filled xs)

  pub filled-append : (xs ys : List A) → filled (xs ++ ys) ≡ filled xs ++ filled ys
  filled-append [] ys = refl
  filled-append (x ∷ xs) ys = ap (◌∷◌ (some x)) (filled-append xs ys)

  take-append_exact : (xs ys : List A) → take (length xs) (xs ++ ys) ≡ xs
  take-append_exact [] ys = refl
  take-append_exact (x ∷ xs) ys = ap (◌∷◌ x) (take-append_exact xs ys)

  drop-append_exact : (xs ys : List A) → drop (length xs) (xs ++ ys) ≡ ys
  drop-append_exact [] ys = refl
  drop-append_exact (x ∷ xs) ys = drop-append_exact xs ys

  drop-append_append : (xs ys zs : List A) → drop (length xs + length ys) (xs ++ (ys ++ zs)) ≡ zs
  drop-append_append [] ys zs =
      let e : 0 + length ys ≡ length ys = omega arith in rw e (drop-append_exact ys zs)
  drop-append_append (x ∷ xs) ys zs =
      let e : suc (length xs) + length ys ≡ suc (length xs + length ys) = omega arith in
      rw e (drop-append_append xs ys zs)

  -- The element after the first `length l` ones.
  pub get_elem?-middle : (l r : List A) (x : A) → get_elem? (l ++ x ∷ r) (length l) ≡ some x
  get_elem?-middle [] r x = refl
  get_elem?-middle (y ∷ l) r x = get_elem?-middle l r x

module _ {ℓ} {A : Type ℓ} where
  pub cells_at-exact :
      (low cells high : List (Option A)) (i n : ℕ)
      → i ≡ length low
      → n ≡ length cells
      → cells_at (low ++ (cells ++ high)) i n ≡ done cells
  unfolding cells_at
  cells_at-exact low cells high i n at count =
      let inside : leb (length low + length cells) (length (low ++ (cells ++ high))) ≡ true =
        ground (arith, length-append low (cells ++ high), length-append cells high) in
      rw (at, count, inside, drop-append_exact low (cells ++ high), take-append_exact cells high)

  pub store_at-exact :
      (low old high cells : List (Option A)) (i : ℕ)
      → i ≡ length low
      → length cells ≡ length old
      → store_at (low ++ (old ++ high)) i cells ≡ done (low ++ (cells ++ high))
  unfolding store_at
  store_at-exact low old high cells i at count =
      let inside : leb (length low + length old) (length (low ++ (old ++ high))) ≡ true =
        ground (arith, length-append low (old ++ high), length-append old high) in
      rw (at, count, inside, take-append_exact low (old ++ high), drop-append_append low old high)

  pub put_self : (mem : Memory A) (p : ℕ) (b : Option (List (Option A))) → put mem p b p ≡ b
  unfolding put
  put_self mem p b = let e : (p == p) ≡ true = ground arith in rw e

  pub put_other :
      (mem : Memory A) (p q : ℕ) (b : Option (List (Option A))) → q ≢ p → put mem p b q ≡ mem q
  unfolding put
  put_other mem p q b ne = let e : (q == p) ≡ false = ground arith in rw e

  pub block-exact :
      (mem : Memory A) (p : ℕ) (b : List (Option A)) → mem p ≡ some b → block mem p ≡ done b
  unfolding block
  block-exact mem p b e = rw (block, e)

  -- The vector has no block, or one with its elements first, of the capacity that the tag says.
  pub data IsVec (v : RawVec) (mem : Memory A) (xs : List A) : Type ℓ where
    unallocated : v.tagged ≡ 0 → xs ≡ [] → IsVec v mem xs
    allocated :
        (p tag : ℕ) (rest : List (Option A))
        → IsTagged v p tag
        → mem p ≡ some (filled xs ++ rest)
        → length xs + length rest ≡ 2 ^ (tag + 1)
        → IsVec v mem xs
