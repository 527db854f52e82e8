-- ===== src/Trie/Bytes.antt =====
-- Byte slices, and the longest common prefix as a recursion: what `lcp` is to compute.
use algors.Prelude.{
  ℕ, zero, suc, ◌+◌, ◌≤◌, ◌<◌, ◌≡◌, List, [], ◌∷◌, ◌++◌, arith, ◌==◌, if◌then◌else◌, length, drop,
  take,
}

abbrev pub IsBytes : List ℕ → Type 0
IsBytes [] = Unit {0}
IsBytes (x ∷ xs) = (x < 256) × IsBytes xs

-- The length of the longest common prefix.
unfoldable pub common : List ℕ → List ℕ → ℕ
common [] ys = 0
common (x ∷ xs) [] = 0
common (x ∷ xs) (y ∷ ys) = if x == y then suc (common xs ys) else 0

pub IsBytes-drop : (n : ℕ) (xs : List ℕ) → IsBytes xs → IsBytes (drop n xs)
IsBytes-drop zero xs h = h
IsBytes-drop (suc n) [] h = tt
IsBytes-drop (suc n) (x ∷ xs) h = IsBytes-drop n xs h.1

pub IsBytes-take : (n : ℕ) (xs : List ℕ) → IsBytes xs → IsBytes (take n xs)
IsBytes-take zero xs h = tt
IsBytes-take (suc n) [] h = tt
IsBytes-take (suc n) (x ∷ xs) h = (h.0, IsBytes-take n xs h.1)

pub IsBytes-append : (xs ys : List ℕ) → IsBytes xs → IsBytes ys → IsBytes (xs ++ ys)
IsBytes-append [] ys h k = k
IsBytes-append (x ∷ xs) ys h k = (h.0, IsBytes-append xs ys h.1 k)

pub common-le : (xs ys : List ℕ) → (common xs ys ≤ length xs) × (common xs ys ≤ length ys)
unfolding common
common-le [] ys = omega arith
common-le (x ∷ xs) [] = omega arith
common-le (x ∷ xs) (y ∷ ys) = ground (arith, common-le xs ys)

-- Past a prefix that agrees, the rest decides.
pub common-drop :
    (n : ℕ) (xs ys : List ℕ) → n ≤ common xs ys → common xs ys ≡ n + common (drop n xs) (drop n ys)
unfolding common
common-drop zero xs ys h = omega arith
common-drop (suc n) [] ys h = absurd (omega arith)
common-drop (suc n) (x ∷ xs) [] h = absurd (omega arith)
common-drop (suc n) (x ∷ xs) (y ∷ ys) h = ground (arith, common-drop n xs ys)
