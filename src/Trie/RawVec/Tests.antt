-- ===== src/Trie/RawVec/Tests.antt =====
-- Calls of `BoundedRawVec` of algors-trie/src/util.rs on a small vector.
use algors.Prelude.{
  ℕ, ◌≤◌, ◌<◌, ◌≡◌, ◌⊎◌, refl, List, [], ◌∷◌, Option, none, some, false, arith, length, Outcome,
  done, panic, ◌>>=◌, Yields,
}
use algors.Trie.Keyed.{insert_at}
use algors.Trie.RawVec.{
  RawVec, Memory, new, cap_tag, capacity, as_mut_ptr, sub, put, block, cells_at, store_at, next_tag,
  move_to, grow, shift, write, get, insert, remove, deallocate,
}
use algors.Trie.RawVec.Correct.{IsVec, allocated}
use algors.Trie.RawVec.Correct.Insert.{insert-Inserts}
use algors.Trie.RawVec.Correct.Remove.{Removes}
use algors.Trie.RawVec.Correct.Free.{Frees, list_operations}

-- A full block of two elements at the address 64.
abbrev two : RawVec
two = record { tagged = 64 }

abbrev heap : Memory ℕ
heap = put (λ p. none) 64 (some (some 5 ∷ some 6 ∷ []))

abbrev elements : List ℕ
elements = 5 ∷ 6 ∷ []

two-IsVec : IsVec two heap elements
unfolding put
two-IsVec =
    allocated 64 0 []
      (record { at = refl; even = refl; pos = omega arith; lt = omega arith; small = omega arith })
      refl refl

insert-Inserts_example :
    (length elements ≤ capacity two)
    × (capacity two ≤ 256)
    × (((length elements < 256)
          × Yields
              (λ (v', mem'). IsVec v' mem' (insert_at elements 1 9))
              (insert false 128 heap two 1 9 (length elements)))
        ⊎ ((length elements ≡ 256) × (insert false 128 heap two 1 9 (length elements) ≡ panic)))
unfolding put
insert-Inserts_example =
    insert-Inserts false 128 heap two (omega arith) refl (omega arith) refl elements 1 9 two-IsVec
      (omega arith)

list_operations_example :
    (get heap two 1 2 ≡ done (some 6))
    × Yields (Removes heap two elements 1) (remove heap two 1 2)
    × Yields (Frees heap two elements) (deallocate heap two 2)
list_operations_example = list_operations heap two elements 1 two-IsVec

-- The first two inserts make one block of two cells, and the third one a block of four.
abbrev three : Outcome (Option (List (Option ℕ)) × Option (List (Option ℕ)) × ℕ × ℕ)
three = insert false 64 (λ p. none) new 0 1 0 >>= λ (v, m).
    insert false 96 m v 1 3 1 >>= λ (v', m').
    insert false 128 m' v' 1 2 2 >>= λ (v'', m''). done (m'' 64, m'' 128, v''.tagged, capacity v'')

three_inserts : three ≡ done (none, some (some 1 ∷ some 2 ∷ some 3 ∷ none ∷ []), 129, 4)
unfolding new cap_tag capacity as_mut_ptr sub put block cells_at store_at next_tag move_to grow
    shift write insert
three_inserts = refl
