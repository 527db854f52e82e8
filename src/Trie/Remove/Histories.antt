-- ===== src/Trie/Remove/Histories.antt =====
-- Whole histories of a map of algors-trie/src/trie.rs: insertions and removals in any order.
use algors.Prelude.{
  ◌≡◌, ◌^◌, ◌<◌, length, refl, ap, ◌∙◌, ℕ, List, [], ◌∷◌, Option, none, some, true, false, Outcome,
  done, ◌>>=◌, Yields, yields, Yields-mono, Yields-bind, if◌then◌else◌,
}
use algors.Trie.Bytes.{IsBytes}
use algors.Trie.Lookup.{same}
use algors.Trie.Map.{TrieMap, new, insert, get, contains}
use algors.Trie.Map.Get.{IsMap, lookup_map, get-lookup}
use algors.Trie.Map.Laws.{stored, insert-Holds, new-IsMap}
use algors.Trie.Remove.{remove, remove_prefix}
use algors.Trie.Remove.Correct.{remove-IsRemoved}
use algors.Trie.Remove.Starts.{starts}
use algors.Trie.Remove.PrefixCorrect.{remove_prefix-IsCut}

-- A call that changes the map.
pub data Call {ℓ} (A : Type ℓ) : Type ℓ where
  inserts : List ℕ → A → Call A
  removes : List ℕ → Call A
  removes_prefix : List ℕ → Call A

module _ {ℓ} {A : Type ℓ} where
  abbrev pub called : Call A → TrieMap A → Outcome (TrieMap A)
  called (inserts k v) t = insert t k v
  called (removes k) t = remove t k >>= λ (res, t'). done t'
  called (removes_prefix k) t = remove_prefix t k

  unfoldable pub call_all : List (Call A) → TrieMap A → Outcome (TrieMap A)
  call_all [] t = done t
  call_all (c ∷ cs) t = called c t >>= λ t'. call_all cs t'

  -- What the call makes of a function from keys to values.
  abbrev pub effect : Call A → (List ℕ → Option A) → List ℕ → Option A
  effect (inserts k v) f j = if same k j then stored k v else f j
  effect (removes k) f j = if same k j then none else f j
  effect (removes_prefix k) f j = if starts k j then none else f j

  unfoldable pub effects : List (Call A) → (List ℕ → Option A) → List ℕ → Option A
  effects [] f j = f j
  effects (c ∷ cs) f j = effects cs (λ i. effect c f i) j

  -- The keys are of bytes, and one that is inserted has fewer than 2 ^ 32.
  abbrev pub OfBytes : Call A → Type 0
  OfBytes (inserts k v) = IsBytes k × (length k < 2 ^ 32)
  OfBytes (removes k) = IsBytes k
  OfBytes (removes_prefix k) = IsBytes k

  abbrev pub AllOfBytes : List (Call A) → Type 0
  AllOfBytes [] = Unit {0}
  AllOfBytes (c ∷ cs) = OfBytes c × AllOfBytes cs

  called-effect :
      (c : Call A) (t : TrieMap A)
      → IsMap t
      → OfBytes c
      → Yields
          (λ t'. IsMap t' × ((j : List ℕ) → lookup_map t' j ≡ effect c (λ i. lookup_map t i) j))
          (called c t)
  called-effect (inserts k v) t valid bytes = insert-Holds t k v valid bytes.0 bytes.1
  called-effect (removes k) t valid bytes =
      Yields-bind (remove-IsRemoved t k valid bytes)
        λ (res, t') (is, ok, differs). yields {a = t'} (ok, differs)
  called-effect (removes_prefix k) t valid bytes = remove_prefix-IsCut t k valid bytes

  effect-ext :
      (c : Call A) (f g : List ℕ → Option A)
      → ((j : List ℕ) → f j ≡ g j)
      → (j : List ℕ) → effect c f j ≡ effect c g j
  effect-ext (inserts k v) f g e j = rw (e j) refl
  effect-ext (removes k) f g e j = rw (e j) refl
  effect-ext (removes_prefix k) f g e j = rw (e j) refl

  effects-ext :
      (cs : List (Call A)) (f g : List ℕ → Option A)
      → ((j : List ℕ) → f j ≡ g j)
      → (j : List ℕ) → effects cs f j ≡ effects cs g j
  unfolding effects
  effects-ext [] f g e j = e j
  effects-ext (c ∷ cs) f g e j =
      effects-ext cs (λ i. effect c f i) (λ i. effect c g i) (λ i. effect-ext c f g e i) j

  call_all-effects :
      (cs : List (Call A)) (t : TrieMap A)
      → IsMap t
      → AllOfBytes cs
      → Yields
          (λ t'. IsMap t' × ((j : List ℕ) → lookup_map t' j ≡ effects cs (λ i. lookup_map t i) j))
          (call_all cs t)
  unfolding call_all effects
  call_all-effects [] t valid bytes = yields (valid, λ j. refl)
  call_all-effects (c ∷ cs) t valid bytes =
      Yields-bind (called-effect c t valid bytes.0) λ t' (ok, holds).
        Yields-mono
          (λ t'' (ok'', all_hold). (
            ok'',
            λ j.
                all_hold j
                ∙ effects-ext cs (λ i. lookup_map t' i) (λ i. effect c (λ l. lookup_map t l) i)
                    holds j,
          ))
          (call_all-effects cs t' ok bytes.1)

  new-lookup : (j : List ℕ) → lookup_map {A = A} new j ≡ none
  unfolding new
  new-lookup [] = refl
  new-lookup (c ∷ j) = refl

  -- From the empty map, any sequence of calls of `insert`, `remove` and `remove_prefix` with byte strings, of
  -- less than 2 ^ 32 bytes where they are inserted, ends, and for a byte key `get` and `contains` then answer as
  -- a function from keys to values does, in which `insert` puts the value at its key, or nothing if that is
  -- empty, `remove` clears its key, and `remove_prefix` clears all keys that start with the prefix.
  pub get-call_all :
      (cs : List (Call A)) (j : List ℕ)
      → AllOfBytes cs
      → IsBytes j
      → Yields
          (λ t.
            (get t j ≡ done (effects cs (λ i. none) j))
            × (contains t j
                ≡ done (elim (effects cs (λ i. none) j) [ none ↦ false | some x ↦ true ])))
          (call_all cs new)
  unfolding contains
  get-call_all cs j calls bytes =
      Yields-mono
        (λ t (ok, holds).
          let value : get t j ≡ done (effects cs (λ i. none) j) =
            get-lookup t j ok bytes
            ∙ ap done (
                holds j
                ∙ effects-ext cs (λ i. lookup_map new i) (λ i. none) (λ i. new-lookup i) j) in
          (value, rw value refl))
        (call_all-effects cs new (new-IsMap A) calls)
