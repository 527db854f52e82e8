-- ===== src/Trie/Prefix/Correct.antt =====
-- What `find_prefix_node` of algors-trie/src/trie.rs finds: a node that holds all keys with the prefix.
use algors.Prelude.{
  ℕ, zero, suc, ◌+◌, ◌≤◌, ◌<◌, ◌≡◌, refl, ap, ap₂, sym, subst, ◌∙◌, inl, inr, List, [], ◌∷◌, ◌++◌,
  Option, none, some, false, arith, done, ◌>>=◌, ltb, ◌==◌, if◌then◌else◌, Yields, yields,
  Yields-mono, length, drop, take, length-drop, Bool-cases, Option-cases, min, or_panic,
}
use algors.Trie.Bytes.{IsBytes, IsBytes-drop, common, common-le}
use algors.Trie.Bitmap.{child_pos_from_byte}
use algors.Trie.Lcp.Correct.{lcp-common}
use algors.Trie.Node.{Node, prefix, child_exists, get_child_by_pos}
use algors.Trie.Node.Valid.{IsValid}
use algors.Trie.Node.Update.{found, found-IsChild, exists-found, get-found, IsChild}
use algors.Trie.Lookup.{strip, lookup, lookup?, lookup_lem}
use algors.Trie.Map.{TrieMap, head_byte}
use algors.Trie.Map.Get.{prefix-IsBytes, IsTree}
use algors.Trie.Prefix.{find_loop, find_prefix_node}

-- A string that ends inside the prefix is the start of it.
take-common : (p k : List ℕ) → common p k ≡ length k → take (length k) p ≡ k
unfolding common
take-common p [] e = refl
take-common [] (y ∷ k) e = absurd (omega arith)
take-common (x ∷ p) (y ∷ k) e = elim (Bool-cases (x == y)) [
  | inl here ↦ ap₂ ◌∷◌ (ground arith) (take-common p k (ground arith))
  | inr there ↦ absurd (ground arith)
]

-- A string that leaves the prefix does so however it goes on.
strip-off :
    (p k s : List ℕ) → common p k < length k → common p k < length p → strip p (k ++ s) ≡ none
unfolding strip common
strip-off p [] s lt lt' = absurd (omega arith)
strip-off [] (y ∷ k) s lt lt' = absurd (omega arith)
strip-off (x ∷ p) (y ∷ k) s lt lt' = elim (Bool-cases (x == y)) [
  | inl here ↦ rw here (strip-off p k s (ground arith) (ground arith))
  | inr there ↦ rw there
]

strip-through :
    (p k s : List ℕ) → common p k ≡ length p → strip p (k ++ s) ≡ some (drop (length p) k ++ s)
unfolding strip common
strip-through [] k s e = refl
strip-through (x ∷ p) [] s e = absurd (omega arith)
strip-through (x ∷ p) (y ∷ k) s e = elim (Bool-cases (x == y)) [
  | inl here ↦ rw here (strip-through p k s (ground arith))
  | inr there ↦ absurd (ground arith)
]

module _ {ℓ} {A : Type ℓ} where
  -- What is left of a search: all strings on from `k` are, without `k`, those on from the offset in the
  -- node that was found, or there are none.
  abbrev pub IsEnd : (List ℕ → Option A) → Option (Node A × ℕ) → Type ℓ
  IsEnd holds none = (s : List ℕ) → holds s ≡ none
  IsEnd holds (some (m, offset)) =
      (offset ≤ length (prefix m))
      × IsValid m
      × ((s : List ℕ) → holds s ≡ lookup m (take offset (prefix m) ++ s))

  IsEnd-ext :
      {f g : List ℕ → Option A} (o : Option (Node A × ℕ))
      → ((s : List ℕ) → g s ≡ f s)
      → IsEnd f o
      → IsEnd g o
  IsEnd-ext none e h = λ s. e s ∙ h s
  IsEnd-ext (some (m, offset)) e (le, valid, h) = (le, valid, λ s. e s ∙ h s)

  find_below :
      (fuel : ℕ) (n : Node A) (b : ℕ) (k : List ℕ)
      → IsValid n
      → b < 256
      → ((c : Node A)
          → IsChild c
          → Yields (IsEnd (λ s. lookup c (b ∷ k ++ s))) (find_loop fuel c (b ∷ k)))
      → Yields (IsEnd (λ s. lookup? (found n b) (b ∷ k ++ s))) (
          if child_exists n (child_pos_from_byte b)
          then (get_child_by_pos n (child_pos_from_byte b) >>= λ child.
              or_panic child >>= λ c. find_loop fuel c (b ∷ k))
          else done none)
  find_below fuel n b k h lt down = elim (Option-cases (found n b)) [
    | inl missing ↦ rw (exists-found n b h lt, missing) (yields λ s. refl)
    | inr (c, here) ↦
        rw (exists-found n b h lt, here, get-found n b c h lt here)
          (down c (found-IsChild n b c h here))
  ]

  find_rest :
      (fuel : ℕ) (n : Node A) (k r : List ℕ)
      → IsValid n
      → IsBytes k
      → IsBytes r
      → common (prefix n) k ≡ length (prefix n)
      → common (prefix n) k < length k
      → drop (length (prefix n)) k ≡ r
      → ((c : Node A) → IsChild c → Yields (IsEnd (λ s. lookup c (r ++ s))) (find_loop fuel c r))
      → Yields (IsEnd (λ s. lookup n (k ++ s))) (find_loop (suc fuel) n k)
  unfolding find_loop head_byte
  find_rest fuel n k [] h bytes rest_bytes whole more left down =
      absurd (omega (arith, ap length left, length-drop (length (prefix n)) k))
  find_rest fuel n k (b ∷ r) h bytes rest_bytes whole more left down =
      let same_holds : (s : List ℕ) → lookup n (k ++ s) ≡ lookup? (found n b) (b ∷ r ++ s) =
        λ s. rw (lookup_lem n (k ++ s), strip-through (prefix n) k s whole, left) refl in
      let not_all : (length (prefix n) == length k) ≡ false = ground arith in
      let not_short : ltb (length (prefix n)) (length (prefix n)) ≡ false = ground arith in
      rw (lcp-common (prefix n) k (prefix-IsBytes n h) bytes, whole, left, not_all, not_short)
        (Yields-mono (λ o e. IsEnd-ext o same_holds e) (find_below fuel n b r h rest_bytes.0 down))

  find_loop-IsEnd :
      (fuel : ℕ) (n : Node A) (k : List ℕ)
      → IsValid n
      → IsBytes k
      → length k + 1 < fuel + min 1 (length (prefix n))
      → Yields (IsEnd (λ s. lookup n (k ++ s))) (find_loop fuel n k)
  unfolding find_loop
  find_loop-IsEnd zero n k h bytes f = absurd (omega arith)
  find_loop-IsEnd (suc fuel) n k h bytes f =
      let l = common (prefix n) k in
      let same = lcp-common (prefix n) k (prefix-IsBytes n h) bytes in
      elim (Bool-cases (l == length k)) [
        | inl all ↦
            let start : take l (prefix n) ≡ k =
              subst (λ m. take m (prefix n) ≡ k) (sym (ground arith))
                (take-common (prefix n) k (ground arith)) in
            rw (same, all)
              (yields ((common-le (prefix n) k).0, h, λ s. ap (λ q. lookup n (q ++ s)) (sym start)))
        | inr more ↦ elim (Bool-cases (ltb l (length (prefix n)))) [
          | inl short ↦
              let off : (s : List ℕ) → strip (prefix n) (k ++ s) ≡ none = λ s.
                strip-off (prefix n) k s (ground (arith, common-le (prefix n) k)) (ground arith) in
              rw (same, more, short) (yields λ s. rw (lookup_lem n (k ++ s), off s))
          | inr whole ↦
              let e : l ≡ length (prefix n) = ground (arith, common-le (prefix n) k) in
              find_rest fuel n k (drop (length (prefix n)) k) h bytes
                (IsBytes-drop (length (prefix n)) k bytes) e
                (ground (arith, common-le (prefix n) k)) refl
                λ c child.
                  let below : l < length k = ground (arith, common-le (prefix n) k) in
                  find_loop-IsEnd fuel c (drop (length (prefix n)) k) child.1
                    (IsBytes-drop (length (prefix n)) k bytes)
                    (omega (
                      arith,
                      length-drop (length (prefix n)) k,
                      common-le (prefix n) k,
                      child.0,
                      below,
                    ))
        ]
      ]

  find-root :
      (r : Option (Node A)) (k : List ℕ)
      → IsTree (record { root = r })
      → IsBytes k
      → Yields (IsEnd (λ s. lookup? r (k ++ s))) (find_prefix_node (record { root = r }) k)
  unfolding find_prefix_node
  find-root none k h bytes = yields λ s. refl
  find-root (some n) [] h bytes = yields (omega arith, h, λ s. refl)
  find-root (some n) (b ∷ k) h bytes =
      let not_empty : (suc (length k) == 0) ≡ false = ground arith in
      rw not_empty (find_loop-IsEnd (length (b ∷ k) + 2) n (b ∷ k) h bytes (omega arith))

  -- `find_prefix_node` for a byte string on a map with a well-formed tree ends. If it finds a node and an offset, the
  -- keys of the tree that go on from the searched string are those of that node that go on from the
  -- offset in its prefix, with the same values; if it finds nothing, the tree has no such key.
  pub find_prefix_node-IsEnd :
      (t : TrieMap A) (k : List ℕ)
      → IsTree t
      → IsBytes k
      → Yields (IsEnd (λ s. lookup? t.root (k ++ s))) (find_prefix_node t k)
  find_prefix_node-IsEnd t k h bytes = find-root t.root k h bytes
