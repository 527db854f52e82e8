-- ===== src/Trie/Iter/Tests.antt =====
-- Three elements, from both ends.
use algors.Prelude.{ℕ, ◌≡◌, refl, List, [], ◌∷◌, true, false, done, Yields, length}
use algors.Trie.Iter.{iter, next, next_back}
use algors.Trie.Iter.Ends.{pull, IsSplit, iter-IsSplit}

abbrev three : List ℕ
three = 1 ∷ 2 ∷ 3 ∷ []

three_pulled :
    pull (true ∷ false ∷ true ∷ true ∷ []) (iter three 3)
    ≡ done (1 ∷ 2 ∷ [], 3 ∷ [], record { ptr = 3 ∷ []; len = 0 })
unfolding pull iter next next_back
three_pulled = refl

iter-IsSplit_example :
    Yields
      (IsSplit (length (true ∷ false ∷ [])) three)
      (pull (true ∷ false ∷ []) (iter three (length three)))
iter-IsSplit_example = iter-IsSplit three (true ∷ false ∷ [])
