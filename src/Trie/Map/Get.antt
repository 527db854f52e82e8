-- ===== src/Trie/Map/Get.antt =====
-- `get` of algors-trie/src/trie.rs finds what the tree holds.
use algors.Prelude.{
  ℕ, zero, suc, ◌+◌, ◌^◌, ◌<◌, ◌≡◌, refl, ap, inl, inr, List, [], ◌∷◌, Option, none, some, true,
  false, arith, done, ◌>>=◌, ltb, ◌==◌, if◌then◌else◌, length, drop, length-drop, Bool-cases,
  Option-cases, min, or_panic,
}
use algors.Trie.Bytes.{IsBytes, IsBytes-drop, common, common-le}
use algors.Trie.Bitmap.{child_pos_from_byte}
use algors.Trie.Lcp.Correct.{lcp-common}
use algors.Trie.Node.{Node, leaf, internal, prefix, child_exists, get_child_by_pos}
use algors.Trie.Node.Valid.{IsValid}
use algors.Trie.Node.Update.{found, found-IsChild, exists-found, get-found, IsChild}
use algors.Trie.Node.Fits.{Fits}
use algors.Trie.Lookup.{strip_lem, lookup, lookup?, lookup_lem}
use algors.Trie.Map.{TrieMap, head_byte, get_loop, get}

module _ {ℓ} {A : Type ℓ} where
  pub prefix-IsBytes : (n : Node A) → IsValid n → IsBytes (prefix n)
  unfolding IsValid prefix
  prefix-IsBytes (leaf p v) h = h
  prefix-IsBytes (internal p v m cs) h = h.0

  -- What `descend` does with a byte at which a child is marked or not.
  get_below :
      (fuel : ℕ) (n : Node A) (b : ℕ) (k : List ℕ)
      → IsValid n
      → b < 256
      → ((c : Node A) → IsChild c → get_loop fuel c (b ∷ k) ≡ done (lookup c (b ∷ k)))
      → (if child_exists n (child_pos_from_byte b)
          then (get_child_by_pos n (child_pos_from_byte b) >>= λ child.
              or_panic child >>= λ c. get_loop fuel c (b ∷ k))
          else done none)
        ≡ done (lookup? (found n b) (b ∷ k))
  get_below fuel n b k h lt down = elim (Option-cases (found n b)) [
    | inl missing ↦ rw (exists-found n b h lt, missing)
    | inr (c, here) ↦
        rw (exists-found n b h lt, here, get-found n b c h lt here)
          (down c (found-IsChild n b c h here))
  ]

  -- The string leaves the prefix of `n`.
  get_off :
      (fuel : ℕ) (n : Node A) (k : List ℕ)
      → IsValid n
      → IsBytes k
      → ltb (common (prefix n) k) (length (prefix n)) ≡ true
      → get_loop (suc fuel) n k ≡ done (lookup n k)
  unfolding get_loop
  get_off fuel n k h bytes short =
      let other : (common (prefix n) k == length (prefix n)) ≡ false = ground arith in
      rw (
        lcp-common (prefix n) k (prefix-IsBytes n h) bytes,
        lookup_lem n k,
        strip_lem (prefix n) k,
        short,
        other,
      )

  -- The whole prefix of `n` starts `k`, and `r` is left.
  get_rest :
      (fuel : ℕ) (n : Node A) (k r : List ℕ)
      → IsValid n
      → IsBytes k
      → IsBytes r
      → common (prefix n) k ≡ length (prefix n)
      → drop (length (prefix n)) k ≡ r
      → ((c : Node A) → IsChild c → get_loop fuel c r ≡ done (lookup c r))
      → get_loop (suc fuel) n k ≡ done (lookup n k)
  unfolding get_loop head_byte
  get_rest fuel n k [] h bytes rest_bytes whole left down =
      let size : length k ≡ length (prefix n) =
        omega (
          arith,
          whole,
          common-le (prefix n) k,
          length-drop (length (prefix n)) k,
          ap length left,
        ) in
      rw
        (
          lcp-common (prefix n) k (prefix-IsBytes n h) bytes,
          lookup_lem n k,
          strip_lem (prefix n) k,
          whole,
          left,
          size,
        )
        (ground arith)
  get_rest fuel n k (b ∷ r) h bytes rest_bytes whole left down =
      let size : length k ≡ suc (length (prefix n) + length r) =
        omega (
          arith,
          whole,
          common-le (prefix n) k,
          length-drop (length (prefix n)) k,
          ap length left,
        ) in
      let short : ltb (length (prefix n)) (length (prefix n)) ≡ false = ground arith in
      let equal : (length (prefix n) == length (prefix n)) ≡ true = ground arith in
      let more : (length (prefix n) == suc (length (prefix n) + length r)) ≡ false = ground arith in
      rw
        (
          lcp-common (prefix n) k (prefix-IsBytes n h) bytes,
          lookup_lem n k,
          strip_lem (prefix n) k,
          whole,
          left,
          size,
          short,
          equal,
          more,
        )
        (get_below fuel n b r h rest_bytes.0 down)

  get_loop_lem :
      (fuel : ℕ) (n : Node A) (k : List ℕ)
      → IsValid n
      → IsBytes k
      → length k + 1 < fuel + min 1 (length (prefix n))
      → get_loop fuel n k ≡ done (lookup n k)
  get_loop_lem zero n k h bytes f = absurd (omega arith)
  get_loop_lem (suc fuel) n k h bytes f =
      elim (Bool-cases (ltb (common (prefix n) k) (length (prefix n)))) [
        | inl short ↦ get_off fuel n k h bytes short
        | inr whole ↦
            let e : common (prefix n) k ≡ length (prefix n) =
              ground (arith, common-le (prefix n) k) in
            get_rest fuel n k (drop (length (prefix n)) k) h bytes
              (IsBytes-drop (length (prefix n)) k bytes) e refl
              λ c child.
                get_loop_lem fuel c (drop (length (prefix n)) k) child.1
                  (IsBytes-drop (length (prefix n)) k bytes)
                  (omega
                    (arith, length-drop (length (prefix n)) k, common-le (prefix n) k, child.0))
      ]

  abbrev pub IsTree : TrieMap A → Type 0
  IsTree t = elim t.root [ none ↦ Unit {0} | some n ↦ IsValid n ]

  -- A map is well formed if its tree is, and if no way down its tree spells 2 ^ 32 bytes.
  abbrev pub IsMap : TrieMap A → Type ℓ
  IsMap t = elim t.root [ none ↦ Unit {ℓ} | some n ↦ IsValid n × Fits (2 ^ 32) n ]

  -- What a map holds, by recursion on its tree. The empty string is no key.
  abbrev pub lookup_map : TrieMap A → List ℕ → Option A
  lookup_map t [] = none
  lookup_map t (b ∷ k) = lookup? t.root (b ∷ k)

  -- `get` of a byte key on a well-formed map ends with the value that the tree holds under the key.
  pub get-lookup :
      (t : TrieMap A) (k : List ℕ) → IsMap t → IsBytes k → get t k ≡ done (lookup_map t k)
  unfolding get
  get-lookup t [] h bytes = refl
  get-lookup t (b ∷ k) h bytes = elim (Option-cases t.root) [
    | inl nothing ↦ rw nothing
    | inr (n, tree) ↦
        rw tree (get_loop_lem (length (b ∷ k) + 2) n (b ∷ k) ((rw tree at h).0) bytes (omega arith))
  ]
