-- ===== src/Heap/Drain.antt =====
-- A client that pops until nothing is left, as algors-heap/tests/heap_tests.rs does.
use mathlib.Core.List.Perm
use mathlib.Core.List.{mem-cons_of_mem, perm_middle, append-nil}
use algors.Prelude.{
  ℕ, zero, suc, ◌+◌, ◌<◌, ◌≡◌, ◌⊎◌, inl, inr, refl, ◌∙◌, List, [], ◌∷◌, ◌++◌, Perm, Pairwise,
  Ordering, none, some, Outcome, done, exhausted, ◌>>=◌, Yields, yields, Yields-mono, Yields-bind,
  arith, length,
}
use algors.Prelude.Swap.{length-perm}
use algors.Heap.{Heap, pop, push, new}
use algors.Heap.Order.{IsLe, IsTotalOrder, IsHeap}
use algors.Heap.Pop.{pop-empty, pop-Popped}
use algors.Heap.Up.{push-IsHeap}

module _ {ℓ} {A : Type ℓ} where
  -- `while let Some(val) = heap.pop() { popped.push(val); }`
  unfoldable pub drain : ℕ → Heap A → Outcome (List A)
  drain zero h = exhausted
  drain (suc fuel) h = pop h >>= λ (res, rest). elim res [
    | none ↦ done []
    | some x ↦ drain fuel rest >>= λ xs. done (x ∷ xs)
  ]

  -- `for &val in vec { heap.push(val); }`
  unfoldable pub push_all : List A → Heap A → Outcome (Heap A)
  push_all [] h = done h
  push_all (x ∷ xs) h = push h x >>= push_all xs

  items_cases : (xs : List A) → (xs ≡ []) ⊎ (0 < length xs)
  items_cases [] = inl refl
  items_cases (x ∷ xs) = inr (omega arith)

  drain_from :
      (fuel : ℕ) (h : Heap A) (cmp : A → A → Ordering)
      → h.cmp ≡ cmp
      → length h.items < fuel
      → IsTotalOrder cmp
      → IsHeap cmp h.items
      → Yields (λ out. Pairwise (IsLe cmp) out × Perm out h.items) (drain fuel h)
  unfolding drain
  drain_from zero h cmp e f order valid = absurd (omega arith)
  drain_from (suc fuel) h cmp e f order valid = elim (items_cases h.items) [
    | inl nothing ↦ rw (pop-empty h nothing) (yields (Pairwise.nil, rw nothing Perm.nil))
    | inr pos ↦ Yields-bind (pop-Popped h (rw e order) (rw e valid) pos) λ (res, rest) p.
        rw p.result (
          Yields-bind
            (drain_from fuel rest cmp (p.kept ∙ e) (omega (arith, length-perm p.same)) order
              (rw e at p.valid))
            λ xs (sorted, perm).
              let same = Perm.trans (Perm.cons p.top perm) p.same in
              yields (
                Pairwise.cons
                    (λ x m. rw e at (p.least x ((Perm.mem_iff same).0 (mem-cons_of_mem p.top m))))
                    sorted,
                same,
              ))
  ]

  push_all_from :
      (xs : List A) (h : Heap A) (cmp : A → A → Ordering)
      → h.cmp ≡ cmp
      → IsTotalOrder cmp
      → IsHeap cmp h.items
      → Yields
          (λ g. IsHeap cmp g.items × Perm g.items (xs ++ h.items) × (g.cmp ≡ cmp))
          (push_all xs h)
  unfolding push_all
  push_all_from [] h cmp e order valid = yields (valid, Perm.rfl, e)
  push_all_from (x ∷ xs) h cmp e order valid =
      Yields-bind (push-IsHeap h x (rw e order) (rw e valid)) λ g (heap, same, kept).
        Yields-mono
          (λ k (heap', same', kept'). (
            heap',
            Perm.trans same' (Perm.trans (Perm.append Perm.rfl same) (perm_middle xs h.items)),
            kept',
          ))
          (push_all_from xs g cmp (kept ∙ e) order (rw e at heap))

-- If the comparison is a total order, pushing the entries of a vector into a new heap and popping
-- until `None` sorts the vector: the client ends, and gets the same entries back in ascending order.
pub drain-push_all {ℓ} :
    {A : Type ℓ} (cmp : A → A → Ordering) (xs : List A)
    → IsTotalOrder cmp
    → Yields
        (λ out. Pairwise (IsLe cmp) out × Perm out xs)
        (push_all xs (new cmp) >>= drain (length xs + 1))
unfolding new
drain-push_all cmp xs order =
    Yields-bind (push_all_from xs _ cmp refl order (λ c p x pos hp hx. cc)) λ g (heap, same, kept).
      let perm = rw append-nil at same in
      Yields-mono (λ out (sorted, moved). (sorted, Perm.trans moved perm))
        (drain_from (length xs + 1) g cmp kept (omega (arith, length-perm perm)) order heap)
