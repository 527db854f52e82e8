-- ===== src/Trie/Prefix.antt =====
-- `find_prefix_node` of algors-trie/src/trie.rs: the node at which a searched prefix ends. It takes fuel
-- as `get` does.
pub mod Correct
use algors.Prelude.{
  ℕ, zero, suc, ◌+◌, List, [], ◌∷◌, Option, none, some, Bool, true, false, Outcome, done, exhausted,
  ◌>>=◌, or_panic, ltb, ◌==◌, if◌then◌else◌, length, drop,
}
use algors.Trie.Bitmap.{ChildPos, child_pos_from_byte}
use algors.Trie.Lcp.{lcp}
use algors.Trie.Node.{Node, prefix, child_exists, get_child_by_pos}
use algors.Trie.Map.{TrieMap, head_byte}

module _ {ℓ} {A : Type ℓ} where
  -- The loop of `find_prefix_node`, from `cur_node` and `cur_data` on.
  unfoldable pub find_loop : ℕ → Node A → List ℕ → Outcome (Option (Node A × ℕ))
  find_loop zero cur_node cur_data = exhausted
  find_loop (suc fuel) cur_node cur_data = lcp (prefix cur_node) cur_data >>= λ lcp_len.
      let rest = drop lcp_len cur_data in
      let descend = λ (child_pos : ChildPos). get_child_by_pos cur_node child_pos >>= λ child.
      or_panic child >>= λ c. find_loop fuel c rest in
      let walk = head_byte rest >>= λ byte.
      let child_pos = child_pos_from_byte byte in
      if child_exists cur_node child_pos then descend child_pos else done none in
      if lcp_len == length cur_data
      then done (some (cur_node, lcp_len))
      else if ltb lcp_len (length (prefix cur_node))
      then done none
      else walk

  unfoldable pub find_prefix_node : TrieMap A → List ℕ → Outcome (Option (Node A × ℕ))
  find_prefix_node t key = elim t.root [
    | none ↦ done none
    | some n ↦
        (let searched = find_loop (length key + 2) n key in
          if length key == 0 then done (some (n, 0)) else searched)
  ]
