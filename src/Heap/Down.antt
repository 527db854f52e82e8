-- ===== src/Heap/Down.antt =====
-- `sift_down` of algors-heap/src/heap.rs.
use mathlib.Core.List.Perm
use algors.Prelude.{
  ℕ, zero, suc, ◌+◌, ◌<◌, ◌≡◌, ◌≢◌, ◌⊎◌, true, List, Perm, Ordering, Yields, yields, Yields-bind,
  Yields-mono, Yields-if, arith, length, get_or, ltb, leb,
}
use algors.Prelude.Swap.{swapped, length-swapped, get_or-swapped, swapped-perm}
use algors.Heap.{is_gt, left, right, parent, smaller_child, sift_down_loop, sift_down}
use algors.Heap.Order.{IsTotalOrder, LeAt, Ordered, parent-lt, index_lem, swap_lem}

module _ {ℓ} {A : Type ℓ} (cmp : A → A → Ordering) (order : IsTotalOrder cmp) (d : A) where
  -- Only the entry at `i` may be greater than its children.
  pub record Sinking (xs : List A) (i : ℕ) : Type 0 where
    pub others : (c : ℕ) → 0 < c → c < length xs → parent c ≢ i → LeAt cmp d xs (parent c) c
    pub around : (c : ℕ) → 0 < c → c < length xs → parent c ≡ i → 0 < i → LeAt cmp d xs (parent i) c

  abbrev pub Result : List A → List A → Type ℓ
  Result xs ys = Ordered cmp d ys × Perm ys xs

  -- The child that is not greater than the other one, if there is another.
  record Smaller (xs : List A) (i m : ℕ) : Type 0 where
    inside : m < length xs
    child : parent m ≡ i
    positive : i < m
    least : (c : ℕ) → 0 < c → c < length xs → parent c ≡ i → LeAt cmp d xs m c

  children : (c i : ℕ) → 0 < c → parent c ≡ i → (c ≡ left i) ⊎ (c ≡ right i)
  unfolding parent left right
  children c i pos e = ground arith

  left-parent :
      (i : ℕ) → (parent (left i) ≡ i) × (parent (right i) ≡ i) × (i < left i) × (left i < right i)
  unfolding parent left right
  left-parent i = omega arith

  smaller_child-Smaller :
      (xs : List A) (i : ℕ) → left i < length xs → Yields (Smaller xs i) (smaller_child cmp xs i)
  unfolding smaller_child
  smaller_child-Smaller xs i h =
      Yields-if (ltb (right i) (length xs))
        (λ both.
          let hr : right i < length xs = ground arith in
          rw (index_lem d xs (right i) hr, index_lem d xs (left i) h)
            (yields (record {
              inside = ground arith;
              child = ground (arith, left-parent i);
              positive = ground (arith, left-parent i);
              least = λ c pos lt e. ground (
                arith,
                children c i pos e,
                order.flip (get_or xs (right i) d) (get_or xs (left i) d),
                order.flip (get_or xs (right i) d) (get_or xs (right i) d),
                order.flip (get_or xs (left i) d) (get_or xs (left i) d),
              );
            })))
        (λ one. yields (record {
          inside = h;
          child = ground (arith, left-parent i);
          positive = ground (arith, left-parent i);
          least = λ c pos lt e.
              ground (
                arith,
                children c i pos e,
                order.flip (get_or xs (left i) d) (get_or xs (left i) d),
              );
        }))

  swapped-Sinking :
      (xs : List A) (i m : ℕ)
      → Sinking xs i
      → Smaller xs i m
      → is_gt (cmp (get_or xs i d) (get_or xs m d)) ≡ true
      → Sinking (swapped d xs i m) m
  swapped-Sinking xs i m s small below =
      let hi : i < length xs = omega (arith, small.inside, small.positive) in
      let size = length-swapped d xs i m hi small.inside in
      let at = get_or-swapped d xs i m hi small.inside in
      record {
        others = λ c pos lt ne. ground (
          arith,
          at c,
          at (parent c),
          s.others c,
          s.around c,
          s.around m,
          small.least c,
          small.child,
          small.positive,
          parent-lt cmp d c pos,
          order.flip (get_or xs i d) (get_or xs m d),
        );
        around = λ c pos lt e pos_m. ground (
          arith,
          at c,
          at (parent m),
          s.others c,
          small.child,
          small.positive,
          parent-lt cmp d c pos,
        );
      }

  loop_restores :
      (fuel : ℕ) (xs : List A) (i : ℕ)
      → length xs < fuel + i
      → i < length xs
      → Sinking xs i
      → Yields (Result xs) (sift_down_loop cmp fuel xs i)
  unfolding sift_down_loop
  loop_restores zero xs i f hi s = absurd (omega arith)
  loop_restores (suc fuel) xs i f hi s =
      Yields-if (ltb i (length xs))
        (λ inside.
          Yields-if (leb (length xs) (left i))
            (λ leaf.
              yields (λ c p q. ground (arith, s.others c, children c i p, left-parent i), Perm.rfl))
            (λ inner. Yields-bind (smaller_child-Smaller xs i (ground arith)) λ m small.
              rw
                (
                  index_lem d xs i hi,
                  index_lem d xs m small.inside,
                  swap_lem d xs i m hi small.inside,
                )
                (Yields-if (is_gt (cmp (get_or xs i d) (get_or xs m d)))
                  (λ below.
                    Yields-mono
                      (λ ys (o, same). (o, Perm.trans same (swapped-perm d xs i m hi small.inside)))
                      (loop_restores fuel (swapped d xs i m) m
                        (omega (arith, small.positive, length-swapped d xs i m hi small.inside))
                        (omega (arith, small.inside, length-swapped d xs i m hi small.inside))
                        (swapped-Sinking xs i m s small below)))
                  (λ settled. yields (
                    λ c p q. ground (
                      arith,
                      s.others c,
                      small.least c,
                      order.trans (get_or xs i d) (get_or xs m d) (get_or xs c d),
                    ),
                    Perm.rfl,
                  )))))
        (λ outside. yields (λ c p q. ground (arith, s.others c, parent-lt cmp d c p), Perm.rfl))

  -- With the heap order broken at the root alone, `sift_down` restores it.
  pub sift_down_restores : (xs : List A) → Sinking xs 0 → Yields (Result xs) (sift_down cmp xs)
  unfolding sift_down
  sift_down_restores xs s =
      Yields-if (leb (length xs) 1) (λ small. yields (λ c p q. absurd (ground arith), Perm.rfl))
        (λ large. loop_restores (length xs + 1) xs 0 (omega arith) (ground arith) s)
