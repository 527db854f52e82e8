-- ===== src/Trie/Layout/Tests.antt =====
-- A short prefix, and a prefix of 17 bytes, as 16 bytes.
use algors.Prelude.{ℕ, ◌≡◌, refl, List, [], ◌∷◌, arith, done, Yields, replicate}
use algors.Trie.Layout.{Memory, write_at, inline_tag, new, from_slices}
use algors.Trie.Layout.RoundTrip.{IsReadBack, new-IsReadBack}
use algors.Trie.Layout.Slices.{concat, from_slices-new}

abbrev nothing_stored : Memory
nothing_stored address = []

abbrev long : List ℕ
long = 7 ∷ replicate 16 9

short_bytes :
    new 4096 nothing_stored (97 ∷ 98 ∷ [])
    ≡ done (
      record { bytes = 5 ∷ 97 ∷ 98 ∷ 0 ∷ 0 ∷ 0 ∷ 0 ∷ 0 ∷ 0 ∷ 0 ∷ 0 ∷ 0 ∷ 0 ∷ 0 ∷ 0 ∷ 0 ∷ [] },
      nothing_stored,
    )
unfolding new write_at inline_tag
short_bytes = refl

new-IsReadBack_example : Yields (IsReadBack long) (new 4096 nothing_stored long)
new-IsReadBack_example = new-IsReadBack nothing_stored long 4096 (omega arith) (omega arith) refl

from_slices-new_example :
    from_slices 4096 (replicate 18 0) nothing_stored (long ∷ [] ∷ (3 ∷ []) ∷ [])
    ≡ new 4096 nothing_stored (concat (long ∷ [] ∷ (3 ∷ []) ∷ []))
from_slices-new_example =
    from_slices-new 4096 (replicate 18 0) nothing_stored (long ∷ [] ∷ (3 ∷ []) ∷ []) refl
