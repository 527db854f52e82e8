-- ===== src/Trie/Visit/Lengths.antt =====
-- The lengths that the suffixes of algors-trie/src/trie.rs carry with them.
use algors.Prelude.{
  ℕ, ◌+◌, ◌≡◌, refl, ap, inl, inr, List, [], ◌∷◌, ◌++◌, Option, none, some, arith, ◌==◌, Yields,
  yields, Yields-bind, length, length-append, drop, Bool-cases,
}
use algors.Trie.Bytes.{IsBytes}
use algors.Trie.Node.{Node, leaf, internal, Nodes, nil, cons, prefix}
use algors.Trie.Map.{TrieMap}
use algors.Trie.Map.Get.{IsTree}
use algors.Trie.Prefix.Correct.{find_prefix_node-IsEnd}
use algors.Trie.Visit.{
  SuffixRef, extend_all, to_vec, call, visit, visit_children, visit_from, for_each_prefix,
}
use algors.Trie.Visit.Correct.{extend_all-snoc}

module _ {ℓ} {A : Type ℓ} where
  -- Each suffix of the calls is as long as it says.
  abbrev pub AreMeasured : List (SuffixRef × A) → Type 0
  AreMeasured [] = Unit {0}
  AreMeasured ((suffix, value) ∷ calls) = (suffix.len ≡ length (to_vec suffix)) × AreMeasured calls

  append-AreMeasured :
      (xs ys : List (SuffixRef × A)) → AreMeasured xs → AreMeasured ys → AreMeasured (xs ++ ys)
  append-AreMeasured [] ys h k = k
  append-AreMeasured ((suffix, value) ∷ xs) ys h k = (h.0, append-AreMeasured xs ys h.1 k)

  call-AreMeasured :
      (v : Option A) (chunks : List (List ℕ)) (len : ℕ)
      → len ≡ length (extend_all [] chunks)
      → AreMeasured (call v chunks len)
  unfolding call to_vec
  call-AreMeasured none chunks len e = tt
  call-AreMeasured (some x) chunks len e = (e, tt)

  mutual
    unfolding visit

    visit-AreMeasured :
        (n : Node A) (chunks : List (List ℕ)) (len : ℕ)
        → len ≡ length (extend_all [] chunks)
        → AreMeasured (visit n chunks len)
    visit-AreMeasured (leaf p v) chunks len e = call-AreMeasured v chunks len e
    visit-AreMeasured (internal p v m cs) chunks len e =
        append-AreMeasured (call v chunks len) (visit_children cs chunks len)
          (call-AreMeasured v chunks len e) (visit_children-AreMeasured cs chunks len e)

    visit_children-AreMeasured :
        (cs : Nodes A) (chunks : List (List ℕ)) (len : ℕ)
        → len ≡ length (extend_all [] chunks)
        → AreMeasured (visit_children cs chunks len)
    visit_children-AreMeasured nil chunks len e = tt
    visit_children-AreMeasured (cons c cs) chunks len e =
        append-AreMeasured (visit c (chunks ++ prefix c ∷ []) (len + length (prefix c)))
          (visit_children cs chunks len)
          (visit-AreMeasured c (chunks ++ prefix c ∷ []) (len + length (prefix c)) (
            omega (
              arith,
              e,
              ap length (extend_all-snoc [] chunks (prefix c)),
              length-append (extend_all [] chunks) (prefix c),
            )))
          (visit_children-AreMeasured cs chunks len e)

  visit_from-AreMeasured : (m : Node A) (offset : ℕ) → AreMeasured (visit_from m offset)
  unfolding visit_from extend_all
  visit_from-AreMeasured m offset = elim (Bool-cases (length (drop offset (prefix m)) == 0)) [
    | inl empty ↦ rw empty (visit-AreMeasured m [] 0 refl)
    | inr some_left ↦ rw some_left (
        visit-AreMeasured m (drop offset (prefix m) ∷ []) (0 + length (drop offset (prefix m)))
          (omega arith))
  ]

  -- In `for_each_prefix` for a byte string on a well-formed map, the length that each suffix caches is
  -- that of the bytes that `to_vec` collects from it.
  pub for_each_prefix-AreMeasured :
      (t : TrieMap A) (k : List ℕ) → IsTree t → IsBytes k → Yields AreMeasured (for_each_prefix t k)
  unfolding for_each_prefix
  for_each_prefix-AreMeasured t k h bytes =
      Yields-bind (find_prefix_node-IsEnd t k h bytes) λ o e. yields (measured o)
    where
      measured :
          (o : Option (Node A × ℕ))
          → AreMeasured (elim o [ none ↦ [] | some (node, offset) ↦ visit_from node offset ])
      measured none = tt
      measured (some (m, offset)) = visit_from-AreMeasured m offset
