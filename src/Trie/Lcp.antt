-- ===== src/Trie/Lcp.antt =====
-- `lcp` of algors-trie/src/util.rs on a little-endian target: the longest common prefix of two byte
-- slices, compared in words of 16, 8, 4 and 2 bytes. A read outside a slice is undefined behaviour.
pub mod Correct
mod Tests
use Prim.Native.Nat.{bit_xor}
use algors.Prelude.{
  ℕ, zero, suc, ◌+◌, ◌-◌, ◌*◌, ◌/◌, min, List, [], ◌∷◌, Option, none, some, Outcome, done,
  undefined, exhausted, ◌>>=◌, leb, ◌==◌, if◌then◌else◌, length, drop, get_elem?, or_panic, Bool,
}
use algors.Prelude.Words.{trailing_zeros}

-- The first `n` bytes, read as a little-endian word.
unfoldable pub word : ℕ → List ℕ → ℕ
word zero xs = 0
word (suc n) [] = 0
word (suc n) (x ∷ xs) = x + 256 * word n xs

-- `p.add(i).cast::<uN>().read_unaligned()`, for a word of `n` bytes.
unfoldable pub read_unaligned : ℕ → List ℕ → ℕ → Outcome ℕ
read_unaligned n xs i = if leb (i + n) (length xs) then done (word n (drop i xs)) else undefined

-- `diff!(x, y, offset)`: the macro's early return, if there is one.
unfoldable pub diff : ℕ → ℕ → ℕ → ℕ → Option ℕ
diff n x y offset =
    if x == y then none else some (offset + trailing_zeros (n * 8) (bit_xor x y) / 8)

-- Two reads at the same offset, and `diff!`.
unfoldable pub compare_at : ℕ → List ℕ → List ℕ → ℕ → Outcome (Option ℕ)
compare_at n xs ys i =
    read_unaligned n xs i >>= λ x. read_unaligned n ys i >>= λ y. done (diff n x y i)

-- `return`, or go on.
abbrev pub or_else : Option ℕ → Outcome ℕ → Outcome ℕ
or_else (some r) rest = done r
or_else none rest = rest

-- The last word of the common length, which may overlap the words before it.
unfoldable pub compare_tail : ℕ → List ℕ → List ℕ → ℕ → Outcome ℕ
compare_tail n xs ys len = compare_at n xs ys (len - n) >>= λ r. or_else r (done len)

unfoldable pub loop16 : ℕ → List ℕ → List ℕ → ℕ → ℕ → Outcome ℕ
loop16 zero xs ys len i = exhausted
loop16 (suc fuel) xs ys len i =
    let next = compare_at 16 xs ys i >>= λ r. or_else r (loop16 fuel xs ys len (i + 16)) in
    if leb (i + 16) len then next else compare_tail 16 xs ys len

-- The cases for 8, 4 and 2: the first word, then the last one.
unfoldable pub two_words : ℕ → List ℕ → List ℕ → ℕ → Outcome ℕ
two_words n xs ys len = compare_at n xs ys 0 >>= λ r. or_else r (compare_tail n xs ys len)

unfoldable pub lcp : List ℕ → List ℕ → Outcome ℕ
lcp buf1 buf2 =
    let len = min (length buf1) (length buf2) in
    let single = or_panic (get_elem? buf1 0) >>= λ x.
    or_panic (get_elem? buf2 0) >>= λ y. if x == y then done 1 else done 0 in
    if len == 0
    then done 0
    else if leb 16 len
    then loop16 (len + 1) buf1 buf2 len 0
    else if leb 8 len
    then two_words 8 buf1 buf2 len
    else if leb 4 len
    then two_words 4 buf1 buf2 len
    else if leb 2 len
    then two_words 2 buf1 buf2 len
    else single
