-- ===== src/Trie/Remove/PrefixCorrect.antt =====
-- `remove_prefix` of algors-trie/src/trie.rs, as its callers see it.
use algors.Prelude.{
  ℕ, ◌+◌, ◌^◌, ◌≡◌, refl, sym, ◌∙◌, subst, inl, inr, List, [], ◌∷◌, Option, none, some, arith, done,
  ◌>>=◌, Yields, yields, Yields-bind, if◌then◌else◌, length, Bool-cases,
}
use algors.Trie.Bytes.{IsBytes}
use algors.Trie.Node.{Node, remove_child}
use algors.Trie.Node.Valid.{IsValid}
use algors.Trie.Node.Update.{remove_child-IsUpdate}
use algors.Trie.Node.Fits.{Fits, Fits-update}
use algors.Trie.Lookup.{strip, lookup, lookup?}
use algors.Trie.Map.{TrieMap}
use algors.Trie.Map.Get.{IsMap, lookup_map}
use algors.Trie.Remove.{Visited, plug, compress, remove_prefix}
use algors.Trie.Remove.Placed.{changed-IsPlaced}
use algors.Trie.Remove.Trail.{equal-IsFit, IsTrail-IsFit}
use algors.Trie.Remove.Compress.{Rooted, compress-Rooted}
use algors.Trie.Remove.Starts.{starts, all-Cuts, Cuts, update-Cuts}
use algors.Trie.Remove.PrefixFocus.{root-IsCutFocus, IsPrefixEnd, walk_prefix-IsPrefixEnd}

module _ {ℓ} {A : Type ℓ} where
  abbrev pub IsCut : TrieMap A → List ℕ → TrieMap A → Type ℓ
  IsCut t k t' = IsMap t' × Cuts k (lookup_map t) (lookup_map t')

  -- The empty key is held by no map.
  root-Cuts :
      (b : ℕ) (k : List ℕ) (n : Node A) (r : Option (Node A))
      → Cuts (b ∷ k) (lookup n) (lookup? r)
      → Cuts (b ∷ k) (lookup_map (record { root = some n })) (lookup_map (record { root = r }))
  unfolding starts strip
  root-Cuts b k n r cuts [] = refl
  root-Cuts b k n r cuts (c ∷ j) = cuts (c ∷ j)

  nothing_left :
      (t : TrieMap A) (j : List ℕ)
      → lookup_map {A = A} (record { root = none }) j
        ≡ (if starts [] j then none else lookup_map t j)
  unfolding starts strip
  nothing_left t [] = refl
  nothing_left t (c ∷ j) = refl

  nothing_there :
      (k j : List ℕ)
      → lookup_map {A = A} (record { root = none }) j
        ≡ (if starts k j then none else lookup_map {A = A} (record { root = none }) j)
  nothing_there k j = elim (Bool-cases (starts k j)) [
    | inl yes_it ↦ rw yes_it (empty j)
    | inr no_it ↦ rw no_it refl
  ]
    where
      empty : (j : List ℕ) → lookup_map {A = A} (record { root = none }) j ≡ none
      empty [] = refl
      empty (c ∷ j) = refl

  Rooted-Cuts :
      (n p : Node A) (b : ℕ) (k : List ℕ) (r : Option (Node A))
      → Cuts (b ∷ k) (lookup n) (lookup p)
      → Rooted p r
      → IsCut (record { root = some n }) (b ∷ k) (record { root = r })
  Rooted-Cuts n p b k none cuts rooted = (tt, root-Cuts b k n none λ j. sym (rooted j) ∙ cuts j)
  Rooted-Cuts n p b k (some m) cuts (ok, same) = (ok, root-Cuts b k n (some m) λ j. same j ∙ cuts j)

  module _ (n : Node A) (b : ℕ) (k : List ℕ) (valid : IsValid n) (whole : Fits (2 ^ 32) n) where
    end-IsCut :
        (end : Option (Visited A))
        → IsPrefixEnd n (b ∷ k) end
        → Yields (IsCut (record { root = some n }) (b ∷ k)) (elim end [
          | none ↦ done (record { root = some n })
          | some [] ↦ done (record { root = none })
          | some ((term_parent, child_pos) ∷ visited) ↦
              remove_child term_parent child_pos >>= λ (removed, parent).
              compress parent visited >>= λ root. done (record { root = root })
        ])
    end-IsCut none cuts =
        yields {a = record { root = some n }} ((valid, whole), root-Cuts b k n (some n) cuts)
    end-IsCut (some []) cuts = yields {a = record { root = none }} (tt, root-Cuts b k n none cuts)
    end-IsCut (some ((parent, pos) ∷ visited)) (d, s, r, c, at, lt, focus, goes_on, here, e) =
        rw at (
          Yields-bind (remove_child-IsUpdate parent d c focus.valid lt here) λ (removed, m) (is, u).
            let fit = equal-IsFit parent m u.valid u.same_prefix in
            let cut : Cuts r (lookup parent) (lookup m) =
              update-Cuts parent r d s none m goes_on u (
                subst (λ f. Cuts (d ∷ s) (lookup? f) (λ j. none)) (sym here)
                  (all-Cuts c (d ∷ s) e)) in
            let (ok, cuts) = focus.change m fit cut in
            Yields-bind
              (compress-Rooted visited m (IsTrail-IsFit visited parent m focus.trail fit) u.valid (
                changed-IsPlaced parent m visited focus.placed
                  λ room h. Fits-update parent d none m room u h λ e is. cc))
              λ root rooted.
                yields {a = record { root = root }}
                  (Rooted-Cuts n (plug m visited) b k root cuts rooted))

  remove_prefix-root :
      (r : Option (Node A)) (b : ℕ) (k : List ℕ)
      → IsMap (record { root = r })
      → IsBytes (b ∷ k)
      → Yields (IsCut (record { root = r }) (b ∷ k)) (remove_prefix (record { root = r }) (b ∷ k))
  unfolding remove_prefix
  remove_prefix-root none b k valid bytes =
      yields {a = record { root = none }} (tt, nothing_there (b ∷ k))
  remove_prefix-root (some n) b k valid bytes =
      Yields-bind
        (walk_prefix-IsPrefixEnd (length (b ∷ k) + 2) n (b ∷ k) n (b ∷ k) []
          (root-IsCutFocus n (b ∷ k) valid.0 valid.1) (refl, refl) bytes (omega arith))
        (end-IsCut n b k valid.0 valid.1)

  -- `remove_prefix` of a byte string on a well-formed map, no way down whose tree spells 2 ^ 32 bytes, ends, and
  -- leaves such a map, which holds nothing under the keys that start with the string, and under every other key
  -- what the map held before.
  pub remove_prefix-IsCut :
      (t : TrieMap A) (k : List ℕ) → IsMap t → IsBytes k → Yields (IsCut t k) (remove_prefix t k)
  unfolding remove_prefix
  remove_prefix-IsCut t [] valid bytes = yields {a = record { root = none }} (tt, nothing_left t)
  remove_prefix-IsCut t (b ∷ k) valid bytes = remove_prefix-root t.root b k valid bytes
