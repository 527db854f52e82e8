-- ===== src/UnionFind/Tests.antt =====
-- Runs of the disjoint sets, and the theorems at such structures.
use algors.Prelude.{
  ℕ, zero, suc, ◌≡◌, refl, [], ◌∷◌, true, false, arith, ◌==◌, if◌then◌else◌, length, pos, negsuc,
  replicate, done, Yields,
}
use algors.Prelude.Bits.{sum_below}
use algors.UnionFind.{
  UnionFind, new, root_loop, flatten_loop, find, link, decrement, union, size_of,
}
use algors.UnionFind.Forest.{Represents, entry, class_size, new-Represents, count_roots}
use algors.UnionFind.Find.{find-root, size_of-class_size}
use algors.UnionFind.Merge.{joined, merged}
use algors.UnionFind.Union.{IsUnion, union-Joins}

-- Three elements, of which 1 is a child of 0.
abbrev pair_and_one : UnionFind
pair_and_one = record { entries = negsuc 1 ∷ pos 0 ∷ negsuc 0 ∷ []; num_sets = 2 }

abbrev one_set : UnionFind
one_set = record { entries = negsuc 2 ∷ pos 0 ∷ pos 0 ∷ []; num_sets = 1 }

pair_and_one-run : union (new 3) 1 0 ≡ done (true, pair_and_one)
unfolding union find root_loop flatten_loop link decrement new
pair_and_one-run = refl

-- A second union of the same elements changes nothing, and a union with the third leaves one set.
later_runs :
    (union pair_and_one 0 1 ≡ done (false, pair_and_one))
    × (union pair_and_one 2 1 ≡ done (true, one_set))
    × (size_of one_set 2 ≡ done (3, one_set))
unfolding union find root_loop flatten_loop link decrement size_of
later_runs = (refl, refl, refl)

-- The path from 0 by 1 to 2 is flattened.
flattened :
    find (record { entries = pos 1 ∷ pos 2 ∷ negsuc 2 ∷ []; num_sets = 1 }) 0
    ≡ done (2, record { entries = pos 2 ∷ pos 2 ∷ negsuc 2 ∷ []; num_sets = 1 })
unfolding find root_loop flatten_loop
flattened = refl

abbrev two_roots : ℕ → ℕ
two_roots = joined (λ i. i) 0 1

pair_and_one-Represents : Represents pair_and_one two_roots
unfolding count_roots sum_below new
pair_and_one-Represents = (
  merged 3 (entry (replicate 3 (negsuc 0))) (λ i. i) (new-Represents 3).0 0 1 0 0 (omega arith)
      (omega arith) (λ e. omega arith) refl refl (entry pair_and_one.entries) change,
  refl,
)
  where
    change :
        (i : ℕ)
        → entry pair_and_one.entries i ≡ (
            if 1 == i then pos 0 else if 0 == i then negsuc 1 else entry (replicate 3 (negsuc 0)) i)
    change zero = refl
    change (suc zero) = refl
    change (suc (suc zero)) = refl
    change (suc (suc (suc i))) =
        let not_1 : (1 == suc (suc (suc i))) ≡ false = ground arith in
        let not_0 : (0 == suc (suc (suc i))) ≡ false = ground arith in rw (not_1, not_0)

find-root_example :
    Yields
      (λ (r, v). (r ≡ two_roots 1) × (length v.entries ≡ 3) × Represents v two_roots)
      (find pair_and_one 1)
find-root_example = find-root pair_and_one two_roots 1 pair_and_one-Represents (omega arith)

size_of-class_size_example :
    Yields
      (λ (s, v). (s ≡ class_size 3 two_roots (two_roots 1)) × Represents v two_roots)
      (size_of pair_and_one 1)
size_of-class_size_example =
    size_of-class_size pair_and_one two_roots 1 pair_and_one-Represents (omega arith)

union-Joins_example : Yields (IsUnion pair_and_one two_roots 2 1) (union pair_and_one 2 1)
union-Joins_example =
    union-Joins pair_and_one two_roots 2 1 pair_and_one-Represents (omega arith) (omega arith)
