-- ===== src/Heap/Tests.antt =====
-- Runs of the heap on numbers, and the theorems at such heaps.
use algors.Prelude.{
  ℕ, zero, suc, ◌≡◌, refl, List, [], ◌∷◌, Perm, Pairwise, compare, done, ◌>>=◌, Yields, arith,
}
use algors.Heap.{Heap, parent, new, push, pop}
use algors.Heap.Order.{IsLe, IsTotalOrder, IsHeap, Ordered, reverse_ordering, Ordered-IsHeap}
use algors.Heap.Up.{push-IsHeap}
use algors.Heap.Pop.{Popped, pop-Popped}
use algors.Heap.Drain.{drain, push_all, drain-push_all}

compare-flip : (a b : ℕ) → compare b a ≡ reverse_ordering (compare a b)
compare-flip a b = ground arith

compare_trans : (a b c : ℕ) → IsLe compare a b → IsLe compare b c → IsLe compare a c
compare_trans a b c p q = ground arith

compare-IsTotalOrder : IsTotalOrder compare
compare-IsTotalOrder = record { flip = compare-flip; trans = compare_trans }

abbrev numbers : List ℕ
numbers = 10 ∷ 5 ∷ 15 ∷ 2 ∷ 8 ∷ []

abbrev sample : Heap ℕ
sample = record { items = 2 ∷ 5 ∷ 15 ∷ 10 ∷ 8 ∷ []; cmp = compare }

numbers_pushed : push_all numbers (new compare) ≡ done sample
unfolding push_all push new
numbers_pushed = refl

numbers_drained : drain 6 sample ≡ done (2 ∷ 5 ∷ 8 ∷ 10 ∷ 15 ∷ [])
unfolding drain pop
numbers_drained = refl

-- The maximum heap of the tests: the closure compares the other way round.
largest_first :
    (push_all numbers (new (λ a b. compare b a)) >>= λ h. drain 6 h)
    ≡ done (15 ∷ 10 ∷ 8 ∷ 5 ∷ 2 ∷ [])
unfolding push_all push new drain pop
largest_first = refl

sample-Ordered : Ordered compare 0 sample.items
unfolding parent
sample-Ordered zero p q = absurd (omega arith)
sample-Ordered (suc zero) p q = refl
sample-Ordered (suc (suc zero)) p q = refl
sample-Ordered (suc (suc (suc zero))) p q = refl
sample-Ordered (suc (suc (suc (suc zero)))) p q = refl
sample-Ordered (suc (suc (suc (suc (suc c))))) p q = absurd (omega arith)

sample-IsHeap : IsHeap compare sample.items
sample-IsHeap = Ordered-IsHeap compare 0 sample.items sample-Ordered

push-IsHeap_example :
    Yields
      (λ g. IsHeap compare g.items × Perm g.items (1 ∷ sample.items) × (g.cmp ≡ compare))
      (push sample 1)
push-IsHeap_example = push-IsHeap sample 1 compare-IsTotalOrder sample-IsHeap

pop-Popped_example : Yields (Popped sample) (pop sample)
pop-Popped_example = pop-Popped sample compare-IsTotalOrder sample-IsHeap (omega arith)

drain-push_all_example :
    Yields
      (λ out. Pairwise (IsLe compare) out × Perm out numbers)
      (push_all numbers (new compare) >>= drain 6)
drain-push_all_example = drain-push_all compare numbers compare-IsTotalOrder
