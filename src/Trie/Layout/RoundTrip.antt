-- ===== src/Trie/Layout/RoundTrip.antt =====
-- What was written to the bytes of a prefix of algors-trie/src/prefix.rs is read back.
use Prim.Native.Nat.{bit_and, bit_or}
use algors.Prelude.{
  ℕ, zero, suc, ◌+◌, ◌*◌, ◌/◌, ◌%◌, ◌^◌, ◌≤◌, ◌<◌, ◌≡◌, refl, ap, ◌∙◌, inl, inr, List, [], ◌∷◌,
  ◌++◌, true, false, Bool-cases, arith, done, Yields, yields, leb, ltb, ◌==◌, if◌then◌else◌, length,
  get_or, get_or-append_left, set, take, replicate,
}
use Prim.Native.Nat.{max}
use native.Mathlib.Nat.{pow-suc}
use algors.Prelude.Bits.{bit_or_step}
use algors.Prelude.Indices.{bit_and-low}
use algors.Trie.Lcp.{word}
use algors.Trie.Layout.{
  Prefix, Memory, write_at, le_bytes, inline_tag, new, is_inline, len_inline, len_alloc, ptr_alloc,
  len, first_byte, as_ref,
}

pub bit_or_zero : (k n : ℕ) → n < 2 ^ k → bit_or n 0 ≡ n
bit_or_zero zero n lt = let e : n ≡ 0 = omega arith in rw e refl
bit_or_zero (suc k) n lt =
    let half = bit_or_zero k (n / 2) (omega (arith, pow-suc 2 k)) in
    omega (arith, bit_or_step n 0, half)

inline_tag-exact : (n : ℕ) → n ≤ 15 → inline_tag n ≡ n * 2 + 1
unfolding inline_tag
inline_tag-exact n le =
    let e : n * 2 % 256 ≡ n * 2 = omega arith in
    let half : n * 2 / 2 ≡ n = omega arith in
    let step : bit_or (n * 2) 1 ≡ bit_or (n * 2 / 2) 0 * 2 + max (n * 2 % 2) 1 =
      bit_or_step (n * 2) 1 in
    rw e (step ∙ rw (half, bit_or_zero 4 n (omega arith)) (omega arith))

odd-inline : (n : ℕ) → bit_and (n * 2 + 1) 1 ≡ 1
odd-inline n = bit_and-low 1 (n * 2 + 1) ∙ omega arith

even-alloc : (n : ℕ) → n % 2 ≡ 0 → bit_and (n % 256) 1 ≡ 0
even-alloc n e = bit_and-low 1 (n % 256) ∙ omega arith

take-append_exact : (xs ys : List ℕ) → take (length xs) (xs ++ ys) ≡ xs
take-append_exact [] ys = refl
take-append_exact (x ∷ xs) ys = ap (◌∷◌ x) (take-append_exact xs ys)

take_all : (xs : List ℕ) → take (length xs) xs ≡ xs
take_all [] = refl
take_all (x ∷ xs) = ap (◌∷◌ x) (take_all xs)

-- The bytes of a prefix on the heap, one by one.
alloc_bytes :
    (pt n d : ℕ)
    → write_at 0 (le_bytes 8 pt) (set (write_at 8 (le_bytes 4 n) (replicate 16 0)) 12 d)
      ≡ le_bytes 8 pt ++ (le_bytes 4 n ++ d ∷ 0 ∷ 0 ∷ 0 ∷ [])
unfolding write_at le_bytes
alloc_bytes pt n d = refl

word-le_bytes4 : (n : ℕ) (rest : List ℕ) → n < 2 ^ 32 → word 4 (le_bytes 4 n ++ rest) ≡ n
unfolding word le_bytes
word-le_bytes4 n rest lt = omega arith

word-le_bytes8 : (n : ℕ) (rest : List ℕ) → n < 2 ^ 64 → word 8 (le_bytes 8 n ++ rest) ≡ n
unfolding word le_bytes
word-le_bytes8 n rest lt = omega arith

-- What is read from a prefix for `content`, in the memory that `new` leaves.
abbrev pub IsReadBack : List ℕ → Prefix × Memory → Type 0
IsReadBack content (p, memory) =
    (as_ref memory p ≡ done content)
    × (len p ≡ length content)
    × (0 < length content → first_byte p ≡ done (get_or content 0 0))

module _ (memory : Memory) (content : List ℕ) where
  inline-IsReadBack :
      length content ≤ 15
      → IsReadBack content (
        record {
          bytes = write_at 1 content (set (replicate 16 0) 0 (inline_tag (length content)));
        },
        memory,
      )
  unfolding write_at as_ref len first_byte is_inline len_inline
  inline-IsReadBack le =
      let inline : (bit_and (length content * 2 + 1) 1 == 1) ≡ true =
        rw (odd-inline (length content)) refl in
      let size : (length content * 2 + 1) / 2 ≡ length content = omega arith in
      rw (inline_tag-exact (length content) le, inline, size)
        (
          ap done (take-append_exact content _),
          refl,
          λ pos.
              let nonempty : (length content == 0) ≡ false = ground arith in
              rw nonempty (ap done (get_or-append_left content _ 0 0 pos)),
        )

  alloc-IsReadBack :
      (pt : ℕ)
      → length content < 2 ^ 32
      → pt < 2 ^ 64
      → pt % 2 ≡ 0
      → IsReadBack content (
        record {
          bytes = write_at 0 (le_bytes 8 pt) (
              set
                (write_at 8 (le_bytes 4 (length content)) (replicate 16 0))
                12
                (get_or content 0 0));
        },
        λ address. if address == pt then content else memory address,
      )
  unfolding as_ref len first_byte is_inline len_alloc ptr_alloc le_bytes
  alloc-IsReadBack pt lt pt_lt even =
      let outside : (bit_and (pt % 256) 1 == 1) ≡ false = rw (even-alloc pt even) refl in
      let here : (pt == pt) ≡ true = ground arith in
      let enough : leb (length content) (length content) ≡ true = ground arith in
      rw
        (
          alloc_bytes pt (length content) (get_or content 0 0),
          outside,
          word-le_bytes8 pt _ pt_lt,
          word-le_bytes4 (length content) _ lt,
          here,
          enough,
        )
        (
          ap done (take_all content),
          refl,
          λ pos. let nonempty : (length content == 0) ≡ false = ground arith in rw nonempty refl,
        )

  -- If the allocator's pointer is even, as the alignment of 2 asks, and no larger than a word, a new prefix of
  -- fewer than 2^32 bytes ends without a panic, and reads back: `as_ref` is the content, `len` its length, and
  -- `first_byte` the first byte, if there is one.
  pub new-IsReadBack :
      (pt : ℕ)
      → length content < 2 ^ 32
      → pt < 2 ^ 64
      → pt % 2 ≡ 0
      → Yields (IsReadBack content) (new pt memory content)
  unfolding new
  new-IsReadBack pt lt pt_lt even = elim (Bool-cases (leb (length content) 15)) [
    | inl short ↦ rw short (
        yields
          {a = (
            record {
              bytes = write_at 1 content (set (replicate 16 0) 0 (inline_tag (length content)));
            },
            memory,
          )}
          (inline-IsReadBack (ground arith)))
    | inr long ↦
        let fits : ltb (length content) (2 ^ 32) ≡ true = ground arith in
        rw (long, fits)
          (yields
            {a = (
              record {
                bytes = write_at 0 (le_bytes 8 pt) (
                    set (write_at 8 (le_bytes 4 (length content)) (replicate 16 0)) 12
                      (get_or content 0 0));
              },
              λ address. if address == pt then content else memory address,
            )}
            (alloc-IsReadBack pt lt pt_lt even))
  ]
