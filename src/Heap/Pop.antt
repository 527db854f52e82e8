-- ===== src/Heap/Pop.antt =====
-- `pop` and `peek` of algors-heap/src/heap.rs.
use mathlib.Core.List.Perm
use mathlib.Core.List.{Mem, not-mem-nil, forall_mem-cons}
use mathlib.Core.Bool
use algors.Prelude.{
  ℕ, suc, ◌-◌, ◌<◌, ◌≡◌, refl, ◌∙◌, true, List, [], ◌∷◌, ◌++◌, Perm, Ordering, subst, Option, none,
  some, done, Yields, yields, Yields-bind, Yields-if, arith, length, get_elem?, get_or, take,
  get_elem?-get_or, get_or-take,
}
use algors.Prelude.Swap.{
  swapped, length-swapped, get_or-swapped, swapped-perm, length-perm, snoc-perm, take-snoc_last,
}
use algors.Heap.{Heap, parent, peek, pop, is_empty}
use algors.Heap.Order.{
  IsLe, IsTotalOrder, IsHeap, Ordered, Ordered-IsHeap, IsHeap-Ordered, parent-lt, root_le, swap_lem,
}
use algors.Heap.Down.{Sinking, sift_down_restores}

module _ {ℓ} {A : Type ℓ} (cmp : A → A → Ordering) (order : IsTotalOrder cmp) (d : A) where
  Mem-le :
      (xs : List A) (b : A)
      → ((i : ℕ) → i < length xs → IsLe cmp b (get_or xs i d))
      → (x : A) → Mem x xs
      → IsLe cmp b x
  Mem-le [] b h = λ x m. absurd (not-mem-nil m)
  Mem-le (y ∷ xs) b h =
      (forall_mem-cons λ x. Bool.Bool-set _ _).1
        (h 0 (omega arith), Mem-le xs b λ i p. h (suc i) (omega arith))

  module _ (xs : List A) (n : ℕ) (size : length xs ≡ suc n) where
    -- What is left of the vector when `pop` has moved the root to the end and taken it off.
    abbrev rest : List A
    rest = take n (swapped d xs 0 n)

    rest-perm : Perm (get_or xs 0 d ∷ rest) xs
    rest-perm =
        Perm.trans (Perm.symm (snoc-perm rest _))
          (rw whole (swapped-perm d xs 0 n (omega arith) (omega arith)))
      where
        whole : rest ++ get_or xs 0 d ∷ [] ≡ swapped d xs 0 n
        whole = ground (
          arith,
          take-snoc_last n (swapped d xs 0 n) d
              (length-swapped d xs 0 n (omega arith) (omega arith) ∙ size),
          get_or-swapped d xs 0 n (omega arith) (omega arith) n,
        )

    rest-Sinking : Ordered cmp d xs → Sinking cmp order d rest 0
    rest-Sinking o =
        let at = get_or-swapped d xs 0 n (omega arith) (omega arith) in
        let kept = λ (c : ℕ). get_or-take n (swapped d xs 0 n) c d in
        let shorter = length-perm rest-perm in
        record {
          others = λ c p q ne.
              ground
                (arith, o c, at c, at (parent c), kept c, kept (parent c), parent-lt cmp d c p);
          around = λ c p q e pos. absurd (omega arith);
        }

-- What `pop` gives on a heap with entries: the entry that `peek` shows, than which none is less, and
-- a heap of the others over the same comparison.
pub record Popped {ℓ} {A : Type ℓ} (h : Heap A) (out : Option A × Heap A) : Type ℓ where
  pub top : A
  pub result : out.0 ≡ some top
  pub peeked : peek h ≡ some top
  pub least : (x : A) → Mem x h.items → IsLe h.cmp top x
  pub same : Perm (top ∷ out.1.items) h.items
  pub valid : IsHeap h.cmp out.1.items
  pub kept : out.1.cmp ≡ h.cmp

first_of_pos {ℓ} : {A : Type ℓ} (xs : List A) → 0 < length xs → (d : A) × (get_elem? xs 0 ≡ some d)
first_of_pos [] pos = absurd (omega arith)
first_of_pos (x ∷ xs) pos = (x, refl)

pos-not-empty {ℓ} : {A : Type ℓ} (h : Heap A) → 0 < length h.items → ¬ (is_empty h ≡ true)
unfolding is_empty
pos-not-empty h pos = ground arith

module _ {ℓ} {A : Type ℓ} (h : Heap A) where
  -- `pop` of an empty heap returns nothing and leaves the heap as it is.
  pub pop-empty : h.items ≡ [] → pop h ≡ done (none, h)
  unfolding pop
  pop-empty e = ground arith

  -- If the comparison is a total order, `pop` of a heap with entries ends, with a least entry and a
  -- heap of the others.
  pub pop-Popped :
      IsTotalOrder h.cmp → IsHeap h.cmp h.items → 0 < length h.items → Yields (Popped h) (pop h)
  unfolding pop peek
  pop-Popped order valid pos =
      let n = length h.items - 1 in
      let (d, first) = first_of_pos h.items pos in
      let size : length h.items ≡ suc n = omega arith in
      let at = get_or-swapped d h.items 0 n pos (omega arith) in
      let moved = swapped d h.items 0 n in
      let last = length-swapped d h.items 0 n pos (omega arith) in
      let back : length moved - 1 ≡ n = omega arith in
      let front : get_or h.items 0 d ≡ d = ground (arith, get_elem?-get_or h.items 0 d) in
      let top_at : get_or moved n d ≡ d = ground (arith, at n) in
      let o = IsHeap-Ordered h.cmp d h.items valid in
      let same =
        subst (λ t. Perm (t ∷ take n moved) h.items) front
          (rest-perm h.cmp order d h.items n size) in
      Yields-if (is_empty h) (λ none_left. absurd (pos-not-empty h pos none_left))
        (λ more. rw (swap_lem d h.items 0 n pos (omega arith)) (
          rw (back, get_elem?-get_or moved n d (omega arith), top_at)
            (Yields-bind
              (sift_down_restores h.cmp order d _ (rest-Sinking h.cmp order d h.items n size o))
              λ ys (below, perm). yields (record {
                top = d;
                result = refl;
                peeked = first;
                least =
                    Mem-le h.cmp order d h.items d
                      λ i lt. rw front at (root_le h.cmp d order h.items i o lt);
                same = Perm.trans (Perm.cons d perm) same;
                valid = Ordered-IsHeap h.cmp d ys below;
                kept = refl;
              }))))
