-- ===== src/Trie/Layout.antt =====
-- algors-trie/src/prefix.rs: the 16 bytes of a prefix on a little-endian target of 64 bits, and the block on
-- the heap that they refer to if the prefix is longer than 15 bytes. The allocator's pointer is a parameter.
pub mod RoundTrip
pub mod Slices
mod Tests
use Prim.Native.Nat.{bit_and, bit_or}
use algors.Prelude.{
  ℕ, zero, suc, ◌+◌, ◌*◌, ◌/◌, ◌%◌, ◌^◌, List, [], ◌∷◌, ◌++◌, Option, none, some, Bool, Outcome,
  done, panic, ◌>>=◌, or_panic, undefined, leb, ltb, ◌==◌, if◌then◌else◌, length, get_or, set, take,
  drop, replicate,
}
use algors.Trie.Lcp.{word}

-- `Prefix`: its 16 bytes.
pub record Prefix : Type 0 where
  pub bytes : List ℕ

-- The blocks on the heap, by their addresses.
abbrev pub Memory : Type 0
Memory = ℕ → List ℕ

abbrev pub prefix_size : ℕ
prefix_size = 16

abbrev pub inline_cap : ℕ
inline_cap = 15

-- A copy of `src` to the bytes from `i` on.
unfoldable pub write_at : ℕ → List ℕ → List ℕ → List ℕ
write_at i src dest = take i dest ++ (src ++ drop (i + length src) dest)

-- The `n` bytes of a number in memory.
unfoldable pub le_bytes : ℕ → ℕ → List ℕ
le_bytes zero v = []
le_bytes (suc n) v = v % 256 ∷ le_bytes n (v / 256)

-- `((len << 1) as u8) | 0x1`
unfoldable pub inline_tag : ℕ → ℕ
inline_tag len = bit_or (len * 2 % 256) 1

-- `new`, with the pointer that the allocator returns for a block.
unfoldable pub new : ℕ → Memory → List ℕ → Outcome (Prefix × Memory)
new pt memory content =
    let zeros = replicate prefix_size 0 in
    let len = length content in
    if leb len inline_cap
    then done (record { bytes = write_at 1 content (set zeros 0 (inline_tag len)) }, memory)
    else if ltb len (2 ^ 32)
    then done (
      record {
        bytes =
            write_at 0 (le_bytes 8 pt)
              (set (write_at 8 (le_bytes 4 len) zeros) 12 (get_or content 0 0));
      },
      λ address. if address == pt then content else memory address,
    )
    else panic

unfoldable pub is_inline : Prefix → Bool
is_inline p = bit_and (get_or p.bytes 0 0) 1 == 1

unfoldable pub len_inline : Prefix → ℕ
len_inline p = get_or p.bytes 0 0 / 2

unfoldable pub len_alloc : Prefix → ℕ
len_alloc p = word 4 (drop 8 p.bytes)

unfoldable pub ptr_alloc : Prefix → ℕ
ptr_alloc p = word 8 p.bytes

unfoldable pub len : Prefix → ℕ
len p = if is_inline p then len_inline p else len_alloc p

-- `first_byte`, with its debug assertion.
unfoldable pub first_byte : Prefix → Outcome ℕ
first_byte p =
    if len p == 0
    then panic
    else if is_inline p
    then done (get_or p.bytes 1 0)
    else done (get_or p.bytes 12 0)

-- `as_ref`. A slice of more bytes than the block has is undefined behaviour.
unfoldable pub as_ref : Memory → Prefix → Outcome (List ℕ)
as_ref memory p =
    if is_inline p
    then done (take (len_inline p) (drop 1 p.bytes))
    else if leb (len_alloc p) (length (memory (ptr_alloc p)))
    then done (take (len_alloc p) (memory (ptr_alloc p)))
    else undefined

-- The loop of `from_slices` that copies the slices one after another.
unfoldable pub copy_all : ℕ → List (List ℕ) → List ℕ → List ℕ
copy_all i [] dest = dest
copy_all i (slice ∷ slices) dest = copy_all (i + length slice) slices (write_at i slice dest)

unfoldable pub total_len : List (List ℕ) → ℕ
total_len [] = 0
total_len (slice ∷ slices) = length slice + total_len slices

-- `slices.iter().find_map(|slice| slice.first())`
unfoldable pub first_of : List (List ℕ) → Option ℕ
first_of [] = none
first_of ([] ∷ slices) = first_of slices
first_of ((x ∷ slice) ∷ slices) = some x

-- `from_slices`, with the pointer and the first content of the block that the allocator returns.
unfoldable pub from_slices : ℕ → List ℕ → Memory → List (List ℕ) → Outcome (Prefix × Memory)
from_slices pt block memory slices =
    let zeros = replicate prefix_size 0 in
    let total = total_len slices in
    if leb total inline_cap
    then done (record { bytes = copy_all 1 slices (set zeros 0 (inline_tag total)) }, memory)
    else if ltb total (2 ^ 32)
    then (or_panic (first_of slices) >>= λ first. done (
      record {
        bytes = write_at 0 (le_bytes 8 pt) (set (write_at 8 (le_bytes 4 total) zeros) 12 first);
      },
      λ address. if address == pt then copy_all 0 slices block else memory address,
    ))
    else panic
