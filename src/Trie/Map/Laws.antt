-- ===== src/Trie/Map/Laws.antt =====
-- The map of algors-trie/src/trie.rs as its callers see it: `insert`, `get`, `contains`, `clear`.
use algors.Prelude.{
  ℕ, ◌+◌, ◌^◌, ◌<◌, ◌≡◌, refl, ap, ◌∙◌, List, [], ◌∷◌, Option, none, some, Bool, true, false, arith,
  Outcome, done, ◌>>=◌, Yields, yields, Yields-mono, Yields-bind, if◌then◌else◌, length,
}
use algors.Trie.Bytes.{IsBytes}
use algors.Trie.Node
use algors.Trie.Node.{Node, leaf, prefix, set_val, put_val}
use algors.Trie.Node.Valid.{IsValid}
use algors.Trie.Node.Fits.{new_prefix_lem, leaf-Fits}
use algors.Trie.Lookup.{same}
use algors.Trie.Map.{TrieMap, new, insert, get, contains}
use algors.Trie.Map.Get.{IsMap, lookup_map, get-lookup}
use algors.Trie.Map.Insert.{IsInserted, end_lookup}
use algors.Trie.Map.Correct.{insert_loop-IsInserted}

pub new-IsMap {ℓ} : (A : Type ℓ) → IsMap (new {A = A})
unfolding new
new-IsMap A = tt

done-if {ℓ} :
    {B : Type ℓ} (c : Bool) (a b : B) → done (if c then a else b) ≡ (if c then done a else done b)
done-if true a b = refl
done-if false a b = refl

module _ {ℓ} {A : Type ℓ} where
  -- What a map holds under `k` after `v` was inserted there: an empty key is not stored.
  abbrev pub stored : List ℕ → A → Option A
  stored [] v = none
  stored (b ∷ k) v = some v

  -- The contents of `t` with `v` put under `k`.
  abbrev pub Holds : TrieMap A → List ℕ → A → TrieMap A → Type ℓ
  Holds t k v t' =
      (j : List ℕ) → lookup_map t' j ≡ (if same k j then stored k v else lookup_map t j)

  -- A map whose tree is a leaf for the one key.
  single-holds :
      (b : ℕ) (k : List ℕ) (v : A) (j : List ℕ)
      → lookup_map (record { root = some (leaf (b ∷ k) (some v)) }) j
        ≡ (if same (b ∷ k) j then some v else none)
  unfolding same
  single-holds b k v [] = refl
  single-holds b k v (c ∷ j) = end_lookup (b ∷ k) v (c ∷ j)

  grown-holds :
      (b : ℕ) (k : List ℕ) (v : A) (n m : Node A)
      → IsInserted n (b ∷ k) v m
      → (j : List ℕ)
      → lookup_map (record { root = some m }) j
        ≡ (if same (b ∷ k) j then some v else lookup_map (record { root = some n }) j)
  unfolding same
  grown-holds b k v n m ins [] = refl
  grown-holds b k v n m ins (c ∷ j) = ins.holds (c ∷ j)

  none-holds : (j : List ℕ) → lookup_map {A = A} (record { root = none }) j ≡ none
  none-holds [] = refl
  none-holds (c ∷ j) = refl

  insert-root :
      (r : Option (Node A)) (b : ℕ) (k : List ℕ) (v : A)
      → IsMap (record { root = r })
      → IsBytes (b ∷ k)
      → length (b ∷ k) < 2 ^ 32
      → Yields
          (λ t'. IsMap t' × Holds (record { root = r }) (b ∷ k) v t')
          (insert (record { root = r }) (b ∷ k) v)
  unfolding insert set_val put_val Node.new IsValid
  insert-root none b k v valid bytes short = rw (new_prefix_lem (b ∷ k) short) (
      yields {a = record { root = some (leaf (b ∷ k) (some v)) }} (
        (bytes, leaf-Fits (2 ^ 32) (b ∷ k) (some v) short),
        λ j. rw (none-holds j) (single-holds b k v j),
      ))
  insert-root (some n) b k v (valid, fit) bytes short =
      Yields-bind
        (insert_loop-IsInserted (length (b ∷ k) + 2) (2 ^ 32) n (b ∷ k) v valid bytes (omega arith)
          fit short (omega arith))
        λ m (ins, fit').
          yields {a = record { root = some m }} ((ins.valid, fit'), grown-holds b k v n m ins)

  pub same_nil :
      (t : TrieMap A) (j : List ℕ) → lookup_map t j ≡ (if same [] j then none else lookup_map t j)
  unfolding same
  same_nil t [] = refl
  same_nil t (c ∷ j) = refl

  insert-nil :
      (t : TrieMap A) (v : A) → IsMap t → Yields (λ t'. IsMap t' × Holds t [] v t') (insert t [] v)
  unfolding insert
  insert-nil t v valid = yields (valid, same_nil t)

  -- `insert` of a byte key of less than 2 ^ 32 bytes into a well-formed map, no way down whose tree spells 2 ^ 32
  -- bytes, ends with such a map. If the key is not empty, the map then holds the value under the key, and under
  -- every other key what it held before. If the key is empty, it holds nothing under the key, and under every other key what it held before.
  pub insert-Holds :
      (t : TrieMap A) (k : List ℕ) (v : A)
      → IsMap t
      → IsBytes k
      → length k < 2 ^ 32
      → Yields (λ t'. IsMap t' × Holds t k v t') (insert t k v)
  insert-Holds t [] v valid bytes short = insert-nil t v valid
  insert-Holds t (b ∷ k) v valid bytes short = insert-root t.root b k v valid bytes short

  -- After `insert` of a key of less than 2 ^ 32 bytes on a well-formed map, `get` of a byte key returns the value if it is the inserted
  -- byte key, and else what it returned before. For an empty key it returns nothing.
  pub get-insert :
      (t : TrieMap A) (k j : List ℕ) (v : A)
      → IsMap t
      → IsBytes k
      → length k < 2 ^ 32
      → IsBytes j
      → Yields (λ t'. get t' j ≡ (if same k j then done (stored k v) else get t j)) (insert t k v)
  get-insert t k j v valid key_bytes short bytes =
      Yields-mono
        (λ t' (ok, holds).
          rw (get-lookup t' j ok bytes, get-lookup t j valid bytes, holds j)
            (done-if (same k j) (stored k v) (lookup_map t j)))
        (insert-Holds t k v valid key_bytes short)

  -- `insert_all` stores each pair in turn.
  unfoldable pub insert_all : TrieMap A → List (List ℕ × A) → Outcome (TrieMap A)
  insert_all t [] = done t
  insert_all t ((k, v) ∷ kvs) = insert t k v >>= λ t'. insert_all t' kvs

  -- The association list that a sequence of insertions stands for: the last pair for a key wins.
  unfoldable pub last_value : List (List ℕ × A) → List ℕ → Option A → Option A
  last_value [] j before = before
  last_value ((k, v) ∷ kvs) j before = last_value kvs j (if same k j then stored k v else before)

  unfoldable pub AreKeys : List (List ℕ × A) → Type 0
  AreKeys [] = Unit {0}
  AreKeys ((k, v) ∷ kvs) = IsBytes k × (length k < 2 ^ 32) × AreKeys kvs

  insert_all-last :
      (kvs : List (List ℕ × A)) (t : TrieMap A)
      → IsMap t
      → AreKeys kvs
      → Yields
          (λ t'. IsMap t' × ((j : List ℕ) → lookup_map t' j ≡ last_value kvs j (lookup_map t j)))
          (insert_all t kvs)
  unfolding insert_all last_value AreKeys
  insert_all-last [] t valid keys = yields (valid, λ j. refl)
  insert_all-last ((k, v) ∷ kvs) t valid keys =
      Yields-bind (insert-Holds t k v valid keys.0 keys.1) λ t' (ok, holds).
        Yields-mono (λ t'' (ok'', all_hold). (ok'', λ j. rw⁻¹ (holds j) (all_hold j)))
          (insert_all-last kvs t' ok keys.2)

  -- From the empty map, any sequence of `insert` calls with keys of less than 2 ^ 32 bytes ends, and for a byte key `get`
  -- and `contains` then answer as an association list does: with the value of the last pair for the
  -- key, if there is one.
  pub get-insert_all :
      (kvs : List (List ℕ × A)) (j : List ℕ)
      → AreKeys kvs
      → IsBytes j
      → Yields
          (λ t.
            (get t j ≡ done (last_value kvs j none))
            × (contains t j ≡ done (elim (last_value kvs j none) [ none ↦ false | some x ↦ true ])))
          (insert_all new kvs)
  unfolding new contains
  get-insert_all kvs j keys bytes =
      Yields-mono
        (λ t (ok, holds).
          let found : get t j ≡ done (last_value kvs j none) =
            get-lookup t j ok bytes ∙ ap done (holds j ∙ ap (last_value kvs j) (none-holds j)) in
          (found, rw found))
        (insert_all-last kvs new (new-IsMap A) keys)
