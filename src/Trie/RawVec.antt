-- ===== src/Trie/RawVec.antt =====
-- `BoundedRawVec` of algors-trie/src/util.rs on a target of 64 bits, for elements that have a size: a pointer that
-- is a multiple of 8, with the tag of the capacity in its last three bits, and the block that it refers to. The
-- allocator's pointer is a parameter, and its layouts are valid.
pub mod Pointer
pub mod Correct
mod Tests
use Prim.Native.Nat.{bit_and, bit_or}
use algors.Prelude.{
  ℕ, zero, suc, ◌+◌, ◌-◌, ◌^◌, List, [], ◌∷◌, ◌++◌, Option, none, some, Bool, true, false, ◌||◌,
  Outcome, done, panic, undefined, ◌>>=◌, leb, ltb, ◌==◌, if◌then◌else◌, length, get_elem?, take,
  drop, replicate,
}

abbrev pub tag_mask : ℕ
tag_mask = 7

abbrev pub tag_max : ℕ
tag_max = 7

-- `BoundedRawVec<T>`
pub record RawVec : Type 0 where
  pub tagged : ℕ

-- The blocks on the heap by their addresses; a cell is `none` while nothing was written to it.
abbrev pub Memory {ℓ} : Type ℓ → Type ℓ
Memory A = ℕ → Option (List (Option A))

-- `new`
unfoldable pub new : RawVec
new = record { tagged = 0 }

unfoldable pub cap_tag : RawVec → ℕ
cap_tag v = bit_and v.tagged tag_mask

unfoldable pub capacity : RawVec → ℕ
capacity v = if v.tagged == 0 then 0 else 2 ^ (cap_tag v + 1)

-- `!(TAG_MASK as usize)` has all bits of a word but the last three.
unfoldable pub as_mut_ptr : RawVec → ℕ
as_mut_ptr v = bit_and v.tagged (2 ^ 64 - 8)

-- `len - i`
unfoldable pub sub : Bool → ℕ → ℕ → Outcome ℕ
sub checks len i = if leb i len then done (len - i) else (if checks then panic else undefined)

-- The tag of the next capacity.
unfoldable pub next_tag : RawVec → Outcome ℕ
next_tag v =
    if capacity v == 0
    then done 0
    else (if ltb (cap_tag v) tag_max then done (cap_tag v + 1) else panic)

module _ {ℓ} {A : Type ℓ} where
  unfoldable pub put : Memory A → ℕ → Option (List (Option A)) → Memory A
  put mem p b q = if q == p then b else mem q

  -- The block at an address.
  unfoldable pub block : Memory A → ℕ → Outcome (List (Option A))
  block mem p = elim (mem p) [ none ↦ undefined | some b ↦ done b ]

  -- A read of one cell, which is undefined out of bounds and where nothing was written.
  unfoldable pub read : List (Option A) → ℕ → Outcome A
  read b i = elim (get_elem? b i) [
    | none ↦ undefined
    | some none ↦ undefined
    | some (some x) ↦ done x
  ]

  -- The two sides of `ptr::copy`: `n` cells from `i` on, and cells stored from `i` on.
  unfoldable pub cells_at : List (Option A) → ℕ → ℕ → Outcome (List (Option A))
  cells_at b i n = if leb (i + n) (length b) then done (take n (drop i b)) else undefined

  unfoldable pub store_at : List (Option A) → ℕ → List (Option A) → Outcome (List (Option A))
  store_at b i xs =
      if leb (i + length xs) (length b)
      then done (take i b ++ (xs ++ drop (i + length xs) b))
      else undefined

  -- `get`
  unfoldable pub get : Memory A → RawVec → ℕ → ℕ → Outcome (Option A)
  get mem v i len =
      if (v.tagged == 0) || leb len i
      then done none
      else block mem (as_mut_ptr v) >>= λ b. read b i >>= λ x. done (some x)

  -- The elements go to the new block, with a gap at `i`, and the old block is given back.
  unfoldable pub move_to : Bool → Memory A → ℕ → List (Option A) → ℕ → ℕ → ℕ → Outcome (Memory A)
  move_to checks mem pt fresh ptr i len =
      if ptr == 0
      then done (put mem pt (some fresh))
      else block mem ptr >>= λ old. cells_at old 0 i >>= λ low. sub checks len i >>= λ n.
          cells_at old i n >>= λ high. store_at fresh 0 low >>= λ b.
          store_at b (i + 1) high >>= λ b'. done (put (put mem pt (some b')) ptr none)

  -- `insert` on a full buffer, up to the write of the element: the new pointer, the vector, the heap.
  unfoldable pub grow : Bool → ℕ → Memory A → RawVec → ℕ → ℕ → Outcome (ℕ × RawVec × Memory A)
  grow checks pt mem v i len = next_tag v >>= λ new_tag.
      if pt == 0
      then panic
      else move_to checks mem pt (replicate (2 ^ (new_tag + 1)) none) (as_mut_ptr v) i len
        >>= λ mem'. done (pt, record { tagged = bit_or pt new_tag }, mem')

  -- `insert` on a buffer with room, up to the write of the element.
  unfoldable pub shift : Bool → Memory A → RawVec → ℕ → ℕ → Outcome (ℕ × RawVec × Memory A)
  shift checks mem v i len = block mem (as_mut_ptr v) >>= λ b. sub checks len i >>= λ n.
      cells_at b i n >>= λ high.
      store_at b (i + 1) high >>= λ b'. done (as_mut_ptr v, v, put mem (as_mut_ptr v) (some b'))

  -- `ptr::write`
  unfoldable pub write : Memory A → ℕ → ℕ → A → Outcome (Memory A)
  write mem p i x =
      block mem p >>= λ b. store_at b i (some x ∷ []) >>= λ b'. done (put mem p (some b'))

  -- `insert`, with the pointer that the allocator returns for a new block.
  unfoldable pub insert : Bool → ℕ → Memory A → RawVec → ℕ → A → ℕ → Outcome (RawVec × Memory A)
  insert checks pt mem v i element len =
      (if len == capacity v then grow checks pt mem v i len else shift checks mem v i len)
      >>= λ (p, v', mem'). write mem' p i element >>= λ mem''. done (v', mem'')

  -- `remove`
  unfoldable pub remove : Memory A → RawVec → ℕ → ℕ → Outcome (Option A × Memory A)
  remove mem v i len =
      if (v.tagged == 0) || leb len i
      then done (none, mem)
      else block mem (as_mut_ptr v) >>= λ b. read b i >>= λ val.
          cells_at b (i + 1) (len - i - 1) >>= λ high.
          store_at b i high >>= λ b'. done (some val, put mem (as_mut_ptr v) (some b'))

  -- The drop of the elements from `i` on, with `n` to go.
  unfoldable pub drop_all : List (Option A) → ℕ → ℕ → Outcome (List A)
  drop_all b zero i = done []
  drop_all b (suc n) i = read b i >>= λ x. drop_all b n (i + 1) >>= λ xs. done (x ∷ xs)

  -- `deallocate`, with the elements that it drops.
  unfoldable pub deallocate : Memory A → RawVec → ℕ → Outcome (List A × RawVec × Memory A)
  deallocate mem v len =
      let ptr = as_mut_ptr v in
      if ptr == 0
      then done ([], v, mem)
      else block mem ptr >>= λ b.
          drop_all b len 0 >>= λ xs. done (xs, record { tagged = 0 }, put mem ptr none)
