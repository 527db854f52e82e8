-- ===== src/Trie/Lcp/Tests.antt =====
-- Runs of `lcp`, on each of its word sizes.
use algors.Prelude.{ℕ, ◌≡◌, refl, List, [], ◌∷◌, ◌++◌, done, replicate}
use algors.Prelude.Words.{trailing_zeros}
use algors.Trie.Lcp.{word, read_unaligned, diff, compare_at, compare_tail, loop16, two_words, lcp}

abbrev stem : List ℕ
stem = replicate 20 7

lcp_runs :
    (lcp (stem ++ 1 ∷ 2 ∷ []) (stem ++ 1 ∷ 3 ∷ 4 ∷ []) ≡ done 21)
    × (lcp (replicate 9 5 ++ 1 ∷ []) (replicate 9 5 ++ 129 ∷ []) ≡ done 9)
    × (lcp (1 ∷ 2 ∷ 3 ∷ 4 ∷ 5 ∷ []) (1 ∷ 2 ∷ 3 ∷ 4 ∷ 5 ∷ []) ≡ done 5)
    × (lcp (1 ∷ 2 ∷ 3 ∷ []) (1 ∷ 2 ∷ 4 ∷ []) ≡ done 2)
    × (lcp (1 ∷ []) (2 ∷ []) ≡ done 0)
unfolding lcp loop16 two_words compare_tail compare_at read_unaligned diff word trailing_zeros
lcp_runs = (refl, refl, refl, refl, refl)
