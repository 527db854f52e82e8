-- ===== src/Trie/RawVec/Correct/Grow.antt =====
-- `insert` of `BoundedRawVec`, algors-trie/src/util.rs: the move to a larger block.
use mathlib.Core.List.{append_assoc}
use Prim.Native.Nat.{bit_or}
use algors.Prelude.{
  ℕ, zero, suc, ◌+◌, ◌-◌, ◌*◌, ◌%◌, ◌^◌, ◌≤◌, ◌<◌, ◌≡◌, ◌≢◌, ◌⊎◌, refl, sym, ap, ◌∙◌, subst, inl,
  inr, List, [], ◌∷◌, ◌++◌, Option, none, some, Bool, true, false, arith, done, panic, undefined,
  exhausted, dec_lt, ◌>>=◌, ltb, ◌==◌, length, length-append, length-replicate, replicate, Outcome,
  Yields, yields, Yields-bind,
}
use native.Mathlib.Nat.{pow-suc}
use algors.Prelude.Bits.{pow-pos}
use algors.Trie.RawVec.{
  RawVec, Memory, cap_tag, capacity, as_mut_ptr, next_tag, put, store_at, move_to, grow,
}
use algors.Trie.RawVec.Pointer.{bit_or-tag, cap_tag-exact, as_mut_ptr-exact, capacity-exact}
use algors.Trie.RawVec.Correct.{
  filled, length-filled, filled-append, cells_at-exact, store_at-exact, put_self, put_other,
  block-exact, IsVec, unallocated, allocated,
}
use algors.Trie.RawVec.Correct.Gap.{HasGap, sub-exact}

-- Below 256 elements, the tag of a full block can still grow.
tag-lt : (tag : ℕ) → tag < 8 → 2 ^ (tag + 1) < 256 → tag < 7
tag-lt tag small few = elim (dec_lt tag 7) [
  | yes lt ↦ lt
  | no ge ↦ let e : tag ≡ 7 = omega arith in absurd (omega (arith, ap (λ k. 2 ^ (k + 1)) e))
]

-- A vector with no block.
module _ (v : RawVec) (null : v.tagged ≡ 0) where
  pub capacity-none : capacity v ≡ 0
  unfolding capacity
  capacity-none = let test : (v.tagged == 0) ≡ true = ground arith in rw test

  pub as_mut_ptr-none : as_mut_ptr v ≡ 0
  unfolding as_mut_ptr
  as_mut_ptr-none = rw null

next_tag-first : (v : RawVec) → capacity v ≡ 0 → next_tag v ≡ done 0
unfolding next_tag
next_tag-first v e = rw e

next_tag-next :
    (v : RawVec) (tag : ℕ)
    → 0 < capacity v
    → cap_tag v ≡ tag
    → tag < 7
    → next_tag v ≡ done (tag + 1)
unfolding next_tag
next_tag-next v tag pos at lt =
    let some_room : (capacity v == 0) ≡ false = ground arith in
    let below : ltb tag 7 ≡ true = ground arith in rw (some_room, at, below)

pub next_tag-last : (v : RawVec) → 0 < capacity v → cap_tag v ≡ 7 → next_tag v ≡ panic
unfolding next_tag
next_tag-last v pos at =
    let some_room : (capacity v == 0) ≡ false = ground arith in rw (some_room, at)

bind_assoc {ℓ κ ρ} :
    {A : Type ℓ} {B : Type κ} {C : Type ρ} (m : Outcome A) (f : A → Outcome B) (g : B → Outcome C)
    → ((m >>= f) >>= g) ≡ (m >>= λ a. f a >>= g)
bind_assoc (done a) f g = refl
bind_assoc panic f g = refl
bind_assoc undefined f g = refl
bind_assoc exhausted f g = refl

module _ {ℓ} {A : Type ℓ} where
  replicate-append : (m n : ℕ) (x : Option A) → replicate (m + n) x ≡ replicate m x ++ replicate n x
  replicate-append zero n x = let e : 0 + n ≡ n = omega arith in rw e
  replicate-append (suc m) n x =
      let e : suc m + n ≡ suc (m + n) = omega arith in rw e (ap (◌∷◌ x) (replicate-append m n x))

  -- A fresh block with the elements on both sides of a gap.
  fresh-cells :
      (l r : List A) (cap' k : ℕ)
      → cap' ≡ length l + (1 + (length r + k))
      → (store_at (replicate cap' none) 0 (filled l) >>= λ b. store_at b (length l + 1) (filled r))
        ≡ done (filled l ++ (none ∷ (filled r ++ replicate k none)))
  fresh-cells l r cap' k size =
      let parts : replicate {A = Option A} cap' none
          ≡ replicate (length l) none ++ (none ∷ (replicate (length r) none ++ replicate k none)) =
        ap (λ n. replicate n none) size
        ∙ replicate-append (length l) (1 + (length r + k)) none
        ∙ ap (λ n. replicate (length l) none ++ n)
            (replicate-append 1 (length r + k) none
              ∙ ap (◌∷◌ none) (replicate-append (length r) k none)) in
      let low =
        store_at-exact [] (replicate (length l) none)
          (none ∷ (replicate (length r) none ++ replicate k none)) (filled l) 0 refl
          (length-filled l ∙ sym (length-replicate (length l) none)) in
      let one : length l + 1 ≡ length (filled l ++ none ∷ []) =
        omega (arith, length-append (filled l) (none ∷ []), length-filled l) in
      let high =
        store_at-exact (filled l ++ none ∷ []) (replicate (length r) none) (replicate k none)
          (filled r) (length l + 1) one
          (length-filled r ∙ sym (length-replicate (length r) none)) in
      rw (parts, low)
        (ap (λ b. store_at b (length l + 1) (filled r))
            (sym
              (append_assoc (filled l) (none ∷ []) (replicate (length r) none ++ replicate k none)))
          ∙ high
          ∙ ap done (append_assoc (filled l) (none ∷ []) (filled r ++ replicate k none)))

  -- The new block of `move_to`.
  move_to-Yields :
      (checks : Bool) (l r : List A) (mem : Memory A) (pt ptr cap' k : ℕ) (rest : List (Option A))
      → cap' ≡ length l + (1 + (length r + k))
      → ((ptr ≡ 0) × (l ++ r ≡ []))
        ⊎ ((0 < ptr) × (pt ≢ ptr) × (mem ptr ≡ some (filled (l ++ r) ++ rest)))
      → Yields
          (λ mem'. mem' pt ≡ some (filled l ++ (none ∷ (filled r ++ replicate k none))))
          (move_to checks mem pt (replicate cap' none) ptr (length l) (length (l ++ r)))
  unfolding move_to
  move_to-Yields checks [] [] mem pt ptr cap' k rest size (inl (null, empty)) =
      let test : (ptr == 0) ≡ true = ground arith in
      let one : cap' ≡ suc k = omega arith in
      rw (test, one) (yields (put_self mem pt (some (none ∷ replicate k none))))
  move_to-Yields checks [] (y ∷ r) mem pt ptr cap' k rest size (inl (null, empty)) = cc
  move_to-Yields checks (y ∷ l) r mem pt ptr cap' k rest size (inl (null, empty)) = cc
  move_to-Yields checks l r mem pt ptr cap' k rest size (inr (pos, ne, cells)) =
      let test : (ptr == 0) ≡ false = ground arith in
      let regroup : filled (l ++ r) ++ rest ≡ filled l ++ (filled r ++ rest) =
        ap (λ k. k ++ rest) (filled-append l r) ∙ append_assoc (filled l) (filled r) rest in
      let target = filled l ++ (none ∷ (filled r ++ replicate k none)) in
      rw
        (
          test,
          block-exact mem ptr (filled (l ++ r) ++ rest) cells,
          regroup,
          cells_at-exact [] (filled l) (filled r ++ rest) 0 (length l) refl (sym (length-filled l)),
          sub-exact checks l r,
          cells_at-exact (filled l) (filled r) rest (length l) (length r) (sym (length-filled l))
              (sym (length-filled r)),
        )
        (subst (Yields (λ mem'. mem' pt ≡ some target))
          (bind_assoc (store_at (replicate cap' none) 0 (filled l))
            (λ b. store_at b (length l + 1) (filled r))
            (λ b'. done (put (put mem pt (some b')) ptr none)))
          (rw (fresh-cells l r cap' k size) (
            yields (
              put_other (put mem pt (some target)) ptr pt none ne
              ∙ put_self mem pt (some target)))))

  module _ (checks : Bool) (l r : List A) (pt : ℕ) (v : RawVec) (mem : Memory A) (pos : 0 < pt)
      (even : pt % 8 ≡ 0) (in_word : pt + 8 ≤ 2 ^ 64) (unused : mem pt ≡ none) where
    -- The new vector, of tag `tag`.
    moved-HasGap :
        (tag cap' k : ℕ) (m : Memory A)
        → tag < 8
        → cap' ≡ 2 ^ (tag + 1)
        → cap' ≡ length l + (1 + (length r + k))
        → m pt ≡ some (filled l ++ (none ∷ (filled r ++ replicate k none)))
        → HasGap l r (pt, record { tagged = bit_or pt tag }, m)
    moved-HasGap tag cap' k m small cap_eq size cells = (
      tag,
      none,
      replicate k none,
      record {
        at = bit_or-tag pt tag even (omega arith) small;
        even = even;
        pos = pos;
        lt = in_word;
        small = small;
      },
      cells,
      omega (arith, length-replicate {A = Option A} k none),
    )

    new-lt : (p : ℕ) (b : List (Option A)) → mem p ≡ some b → pt ≢ p
    new-lt p b e same = let clash : none ≡ some b = sym unused ∙ ap mem same ∙ e in cc

    pub grow-HasGap :
        IsVec v mem (l ++ r)
        → length (l ++ r) ≡ capacity v
        → length (l ++ r) < 256
        → Yields (HasGap l r) (grow checks pt mem v (length l) (length (l ++ r)))
    unfolding grow
    grow-HasGap (unallocated null empty) full few =
        let none_yet = capacity-none v null in
        let test : (pt == 0) ≡ false = ground arith in
        let size : 2 ≡ length l + (1 + (length r + 1)) = omega (arith, length-append l r) in
        rw (next_tag-first v none_yet, test, as_mut_ptr-none v null)
          (Yields-bind (move_to-Yields checks l r mem pt 0 2 1 [] size (inl (refl, empty)))
            λ m cells. yields (moved-HasGap 0 2 1 m (omega arith) refl size cells))
    grow-HasGap (allocated p tag rest tagged cells room) full few =
        let room_now =
          capacity-exact v p tag tagged.at tagged.even tagged.pos tagged.lt tagged.small in
        let ptr =
          as_mut_ptr-exact v p tag tagged.at tagged.even tagged.pos tagged.lt tagged.small in
        let lt = tag-lt tag tagged.small (omega arith) in
        let test : (pt == 0) ≡ false = ground arith in
        let larger : 2 ^ (tag + 1 + 1) ≡ 2 * 2 ^ (tag + 1) =
          let e : tag + 1 + 1 ≡ suc (tag + 1) = omega arith in
          rw (e, pow-suc 2 (tag + 1)) (omega arith) in
        let k = 2 ^ (tag + 1 + 1) - (1 + (length l + length r)) in
        let size : 2 ^ (tag + 1 + 1) ≡ length l + (1 + (length r + k)) =
          omega (arith, length-append l r, pow-pos (tag + 1)) in
        rw
          (
            next_tag-next v tag (omega (arith, pow-pos (tag + 1)))
                (cap_tag-exact v p tag tagged.at tagged.even tagged.pos tagged.lt tagged.small) lt,
            test,
            ptr,
          )
          (Yields-bind
            (move_to-Yields checks l r mem pt p (2 ^ (tag + 1 + 1)) k rest size
              (inr (tagged.pos, new-lt p (filled (l ++ r) ++ rest) cells, cells)))
            λ m cells'.
              yields
                (moved-HasGap (tag + 1) (2 ^ (tag + 1 + 1)) k m (omega arith) refl size cells'))
