-- ===== src/Queue/Mpmc/Exact.antt =====
-- algors-queue/src/mpmc.rs: what the arithmetic and the accesses to slots come to, while the counters stay
-- below half of the values of a word.
use algors.Prelude.{
  ℕ, ◌+◌, ◌%◌, ◌^◌, ◌<◌, ◌≡◌, ◌≢◌, sym, ap, subst, Option, none, some, Bool, true, arith, ltb, ◌==◌,
  if◌then◌else◌, length, set, done, Bool-cases, inl, inr,
}
use algors.Prelude.Indices.{usize_values, wrapping_sub, bit_and-low}
use algors.Queue.Mpmc.{
  Slot, Inner, outside, push_load, push_claim, pop_load, pop_claim, silent, refused, found_empty,
  add, is_negative, mask, slot_at, store_slot, store_seq, write_slot, take_slot, judge_push,
  judge_pop,
}
use algors.Queue.Mpmc.Invariant.{with_seq, Holds}

pub add-exact : (checks : Bool) (a b : ℕ) → a + b < usize_values → add checks a b ≡ done (a + b)
unfolding add
add-exact checks a b lt = let e : ltb (a + b) usize_values ≡ true = ground arith in rw e

-- The sign of the difference of two counters is their order.
pub difference-zero : (m n : ℕ) → m < 2 ^ 63 → n < 2 ^ 63 → (wrapping_sub m n == 0) ≡ (m == n)
unfolding wrapping_sub
difference-zero m n m_lt n_lt = ground arith

pub difference-negative :
    (m n : ℕ) → m < 2 ^ 63 → n < 2 ^ 63 → m ≢ n → is_negative (wrapping_sub m n) ≡ ltb m n
unfolding wrapping_sub is_negative
difference-negative m n m_lt n_lt ne = ground arith

module _ {ℓ} {A : Type ℓ} where
  pub mask-exact :
      (pow : ℕ) (inner : Inner A) (p : ℕ) → length inner.buf ≡ 2 ^ pow → mask inner p ≡ p % 2 ^ pow
  unfolding mask
  mask-exact pow inner p size = rw size (bit_and-low pow p)

  module _ (room : ℕ) (inner : Inner A) (p i n : ℕ) (x : Option A) (at : i ≡ p % room)
      (holds : Holds room inner.buf p n x) where
    abbrev with_slot : Slot A → Inner A
    with_slot s = record inner { buf = set inner.buf (p % room) s }

    pub slot_at-exact : slot_at inner i ≡ done (with_seq n x)
    unfolding slot_at
    slot_at-exact =
        subst (λ k. slot_at inner k ≡ done (with_seq n x)) (sym at) (rw (slot_at, holds))

    pub store_seq-exact : (m : ℕ) → store_seq inner i m ≡ done (with_slot (with_seq m x))
    unfolding store_seq store_slot
    store_seq-exact m = rw slot_at-exact (ap (λ k. done (store_slot inner k (with_seq m x))) at)

    pub write_slot-exact : (v : A) → write_slot inner i v ≡ done (with_slot (with_seq n (some v)))
    unfolding write_slot store_slot
    write_slot-exact v =
        rw slot_at-exact (ap (λ k. done (store_slot inner k (with_seq n (some v)))) at)

  pub take_slot-exact :
      (room : ℕ) (inner : Inner A) (p i n : ℕ) (v : A)
      → i ≡ p % room
      → Holds room inner.buf p n (some v)
      → take_slot inner i
        ≡ done (v, record inner { buf = set inner.buf (p % room) (with_seq n none) })
  unfolding take_slot store_slot
  take_slot-exact room inner p i n v at holds =
      rw (slot_at-exact room inner p i n (some v) at holds)
        (ap (λ k. done (v, store_slot inner k (with_seq n none))) at)

  -- What the code does with a sequence number, by its order to the index.
  pub judge_push-exact :
      (inner : Inner A) (v : A) (idx seq : ℕ)
      → seq < 2 ^ 63
      → idx < 2 ^ 63
      → judge_push inner v idx seq ≡ (
          if seq == idx
          then (silent, inner, push_claim v idx)
          else if ltb seq idx
          then (refused v, inner, outside)
          else (silent, inner, push_load v))
  unfolding judge_push
  judge_push-exact inner v idx seq s_lt i_lt = elim (Bool-cases (seq == idx)) [
    | inl same ↦ rw (difference-zero seq idx s_lt i_lt, same)
    | inr other ↦ rw (
      difference-zero seq idx s_lt i_lt,
      other,
      difference-negative seq idx s_lt i_lt (ground arith),
    )
  ]

  pub judge_pop-exact :
      (inner : Inner A) (idx next seq : ℕ)
      → seq < 2 ^ 63
      → next < 2 ^ 63
      → judge_pop inner idx next seq ≡ (
          if seq == next
          then (silent, inner, pop_claim idx)
          else if ltb seq next
          then (found_empty, inner, outside)
          else (silent, inner, pop_load))
  unfolding judge_pop
  judge_pop-exact inner idx next seq s_lt n_lt = elim (Bool-cases (seq == next)) [
    | inl same ↦ rw (difference-zero seq next s_lt n_lt, same)
    | inr other ↦ rw (
      difference-zero seq next s_lt n_lt,
      other,
      difference-negative seq next s_lt n_lt (ground arith),
    )
  ]
