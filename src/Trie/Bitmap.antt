-- ===== src/Trie/Bitmap.antt =====
-- The 256-bit child bitmap of algors-trie/src/node.rs, in four words of 64 bits, and the positions
-- of children in it. Positions come from a byte, so that `idx` is below 4 and `bit` below 64.
pub mod Laws
use Prim.Native.Nat.{bit_and, bit_or}
use algors.Prelude.{
  ℕ, zero, suc, ◌+◌, ◌-◌, ◌*◌, ◌/◌, ◌%◌, ◌^◌, ◌≤◌, ◌<◌, ◌≡◌, refl, Bool, true, false, not, arith,
  ltb, ◌==◌, if◌then◌else◌,
}
use algors.Prelude.Bits.{count_ones}

-- `[u64; 4]`
pub record Bitmap : Type 0 where
  pub w0 : ℕ
  pub w1 : ℕ
  pub w2 : ℕ
  pub w3 : ℕ

pub record ChildPos : Type 0 where
  pub idx : ℕ
  pub bit : ℕ

abbrev pub empty : Bitmap
empty = record { w0 = 0; w1 = 0; w2 = 0; w3 = 0 }

unfoldable pub word_at : Bitmap → ℕ → ℕ
word_at m i = if i == 0 then m.w0 else if i == 1 then m.w1 else if i == 2 then m.w2 else m.w3

unfoldable pub set_word : Bitmap → ℕ → ℕ → Bitmap
set_word m i w =
    if i == 0
    then record m { w0 = w }
    else if i == 1
    then record m { w1 = w }
    else if i == 2
    then record m { w2 = w }
    else record m { w3 = w }

-- `Node::child_pos_from_byte`
unfoldable pub child_pos_from_byte : ℕ → ChildPos
child_pos_from_byte byte = record { idx = byte / 2 ^ 6; bit = bit_and byte 63 }

-- `InternalNode::len_children`
unfoldable pub len_children : Bitmap → ℕ
len_children m = count_ones 64 m.w0 + count_ones 64 m.w1 + count_ones 64 m.w2 + count_ones 64 m.w3

-- The test of `Node::child_exists` on an internal node.
unfoldable pub child_exists : Bitmap → ChildPos → Bool
child_exists m pos = not (bit_and (word_at m pos.idx) (2 ^ pos.bit) == 0)

-- A Boolean, cast to a number.
abbrev pub as_u32 : Bool → ℕ
as_u32 true = 1
as_u32 false = 0

-- The count of `Node::child_idx_from_pos` on an internal node.
unfoldable pub child_idx_from_pos : Bitmap → ChildPos → ℕ
child_idx_from_pos m pos =
    let safe_idx = bit_and pos.idx 3 in
    let before =
      as_u32 (ltb 0 safe_idx) * count_ones 64 m.w0
      + as_u32 (ltb 1 safe_idx) * count_ones 64 m.w1
      + as_u32 (ltb 2 safe_idx) * count_ones 64 m.w2 in
    let mask = 2 ^ pos.bit - 1 in
    let current = count_ones 64 (bit_and (word_at m safe_idx) mask) in before + current

-- `bitmap[pos.idx] |= 1 << pos.bit`
unfoldable pub set_bit : Bitmap → ChildPos → Bitmap
set_bit m pos = set_word m pos.idx (bit_or (word_at m pos.idx) (2 ^ pos.bit))

-- `bitmap[pos.idx] &= !(1 << pos.bit)`
unfoldable pub clear_bit : Bitmap → ChildPos → Bitmap
clear_bit m pos = set_word m pos.idx (bit_and (word_at m pos.idx) (2 ^ 64 - 1 - 2 ^ pos.bit))
