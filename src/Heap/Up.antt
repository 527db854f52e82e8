-- ===== src/Heap/Up.antt =====
-- `push` and `sift_up` of algors-heap/src/heap.rs.
use mathlib.Core.List.Perm
use algors.Prelude.{
  ℕ, zero, suc, ◌-◌, ◌<◌, ◌≡◌, ◌≢◌, refl, false, List, [], ◌∷◌, ◌++◌, Perm, Ordering, Yields,
  yields, Yields-bind, Yields-mono, Yields-if, arith, length, get_or, ltb, leb, length-append,
  get_or-append_left,
}
use algors.Prelude.Swap.{swapped, length-swapped, get_or-swapped, swapped-perm, snoc-perm}
use algors.Heap.{Heap, is_le, parent, sift_up_loop, sift_up, push}
use algors.Heap.Order.{
  IsTotalOrder, IsHeap, LeAt, Ordered, Ordered-IsHeap, IsHeap-Ordered, parent-lt, index_lem,
  swap_lem,
}

module _ {ℓ} {A : Type ℓ} (cmp : A → A → Ordering) (order : IsTotalOrder cmp) (d : A) where
  -- Only the entry at `i` may be less than its parent.
  record Rising (xs : List A) (i : ℕ) : Type 0 where
    inside : i < length xs
    others : (c : ℕ) → 0 < c → c < length xs → c ≢ i → LeAt cmp d xs (parent c) c
    around : (c : ℕ) → 0 < c → c < length xs → parent c ≡ i → 0 < i → LeAt cmp d xs (parent i) c

  abbrev Result : List A → List A → Type ℓ
  Result xs ys = Ordered cmp d ys × Perm ys xs

  swapped-Rising :
      (xs : List A) (i : ℕ)
      → Rising xs i
      → 0 < i
      → is_le (cmp (get_or xs (parent i) d) (get_or xs i d)) ≡ false
      → Rising (swapped d xs i (parent i)) (parent i)
  swapped-Rising xs i r pos above =
      let p = parent i in
      let lt = parent-lt cmp d i pos in
      let hp : p < length xs = omega (arith, r.inside) in
      let size = length-swapped d xs i p r.inside hp in
      let at = get_or-swapped d xs i p r.inside hp in
      record {
        inside = omega arith;
        others = λ c pos_c lt_c ne. ground (
          arith,
          at c,
          at (parent c),
          r.others c,
          r.around c,
          parent-lt cmp d c pos_c,
          order.flip (get_or xs p d) (get_or xs i d),
          order.trans (get_or xs i d) (get_or xs p d) (get_or xs c d),
        );
        around = λ c pos_c lt_c e pos_p. ground (
          arith,
          at c,
          at (parent p),
          r.others c,
          r.others p,
          parent-lt cmp d c pos_c,
          parent-lt cmp d p pos_p,
          order.trans (get_or xs (parent p) d) (get_or xs p d) (get_or xs c d),
        );
      }

  loop_restores :
      (fuel : ℕ) (xs : List A) (i : ℕ)
      → i < fuel
      → Rising xs i
      → Yields (Result xs) (sift_up_loop cmp fuel xs i)
  unfolding sift_up_loop
  loop_restores zero xs i f r = absurd (omega arith)
  loop_restores (suc fuel) xs i f r =
      Yields-if (ltb 0 i)
        (λ pos.
          let lt = parent-lt cmp d i (ground arith) in
          let hp : parent i < length xs = omega (arith, r.inside) in
          rw
            (
              index_lem d xs (parent i) hp,
              index_lem d xs i r.inside,
              swap_lem d xs i (parent i) r.inside hp,
            )
            (Yields-if (is_le (cmp (get_or xs (parent i) d) (get_or xs i d)))
              (λ settled. yields (λ c p q. ground (arith, r.others c), Perm.rfl))
              (λ above.
                Yields-mono
                  (λ ys (o, same).
                    (o, Perm.trans same (swapped-perm d xs i (parent i) r.inside hp)))
                  (loop_restores fuel (swapped d xs i (parent i)) (parent i) (omega arith)
                    (swapped-Rising xs i r (ground arith) above)))))
        (λ root. yields (λ c p q. r.others c p q (ground arith), Perm.rfl))

  -- With the heap order broken at the last entry alone, `sift_up` restores it.
  sift_up_restores : (xs : List A) → Rising xs (length xs - 1) → Yields (Result xs) (sift_up cmp xs)
  unfolding sift_up
  sift_up_restores xs r =
      Yields-if (leb (length xs) 1) (λ small. yields (λ c p q. absurd (ground arith), Perm.rfl))
        (λ _. loop_restores (length xs) xs (length xs - 1) (omega (arith, r.inside)) r)

  snoc-Rising :
      (xs : List A) (x : A) → Ordered cmp d xs → Rising (xs ++ x ∷ []) (length (xs ++ x ∷ []) - 1)
  snoc-Rising xs x o =
      let size = length-append xs (x ∷ []) in
      let before = λ (c : ℕ). get_or-append_left xs (x ∷ []) c d in
      record {
        inside = omega arith;
        others =
            λ c p q ne. ground (arith, size, o c, before c, before (parent c), parent-lt cmp d c p);
        around = λ c p q e pos. absurd (omega (arith, parent-lt cmp d c p));
      }

-- If the comparison is a total order, `push` on a heap ends with a heap, over the same comparison,
-- of the old entries and the new one.
pub push-IsHeap {ℓ} :
    {A : Type ℓ} (h : Heap A) (x : A)
    → IsTotalOrder h.cmp
    → IsHeap h.cmp h.items
    → Yields (λ g. IsHeap h.cmp g.items × Perm g.items (x ∷ h.items) × (g.cmp ≡ h.cmp)) (push h x)
unfolding push
push-IsHeap h x order valid =
    Yields-bind
      (sift_up_restores h.cmp order x (h.items ++ x ∷ [])
        (snoc-Rising h.cmp order x h.items x (IsHeap-Ordered h.cmp x h.items valid)))
      λ xs (o, same).
        yields (Ordered-IsHeap h.cmp x xs o, Perm.trans same (snoc-perm h.items x), refl)
