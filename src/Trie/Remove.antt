-- ===== src/Trie/Remove.antt =====
-- algors-trie/src/trie.rs: `remove`, `remove_prefix`, `compress` and `get_mut`. The stack of raw pointers to
-- the nodes above is the list of these nodes, the nearest first, each with the position of the child that
-- was taken. What the loop changes in a child is written back into the node above when that is used next.
pub mod Focus
pub mod Trail
pub mod Placed
pub mod Merge
pub mod Compress
pub mod Correct
pub mod Starts
pub mod PrefixFocus
pub mod PrefixCorrect
pub mod Histories
mod Tests
use algors.Prelude.{
  ℕ, zero, suc, ◌+◌, List, [], ◌∷◌, ◌++◌, Option, none, some, Bool, true, false, ◌&&◌, not, Outcome,
  done, exhausted, ◌>>=◌, or_panic, ltb, ◌==◌, if◌then◌else◌, length, drop,
}
use algors.Trie.Bitmap.{ChildPos, child_pos_from_byte}
use algors.Trie.Lcp.{lcp}
use algors.Trie.Node.{
  Node, new_prefix, prefix, set_prefix, val, has_val, take_val, set_val, len_children, child_exists,
  get_child_by_pos, set_child_by_pos, child_pos_from_idx, remove_child, transfer_children,
}
use algors.Trie.Map.{TrieMap, head_byte}

abbrev pub Visited {ℓ} : Type ℓ → Type ℓ
Visited A = List (Node A × ChildPos)

module _ {ℓ} {A : Type ℓ} where
  -- The loop of `remove` and of `get_mut`: the node where the key ends, with the nodes above.
  unfoldable pub walk : ℕ → Node A → List ℕ → Visited A → Outcome (Option (Node A × Visited A))
  walk zero cur_node cur_data visited = exhausted
  walk (suc fuel) cur_node cur_data visited = lcp (prefix cur_node) cur_data >>= λ lcp_len.
      let rest = drop lcp_len cur_data in
      let descend = λ (next_pos : ChildPos). get_child_by_pos cur_node next_pos >>= λ child.
      or_panic child >>= λ c. walk fuel c rest ((cur_node, next_pos) ∷ visited) in
      let go = head_byte rest >>= λ byte.
      let next_pos = child_pos_from_byte byte in
      if child_exists cur_node next_pos then descend next_pos else done none in
      if ltb lcp_len (length (prefix cur_node))
      then done none
      else if lcp_len == length cur_data
      then done (some (cur_node, visited))
      else go

  -- The root, when `cur` is what the reference below the visited nodes has become.
  unfoldable pub plug : Node A → Visited A → Node A
  plug cur [] = cur
  plug cur ((above, pos) ∷ visited) = plug (set_child_by_pos above pos cur) visited

  -- `get_mut`: the value, and what a write through its reference makes of the map.
  unfoldable pub get_mut : TrieMap A → List ℕ → Outcome (Option (A × (A → TrieMap A)))
  get_mut t [] = done none
  get_mut t (b ∷ k) = elim t.root [
    | none ↦ done none
    | some n ↦ walk (length (b ∷ k) + 2) n (b ∷ k) [] >>= λ end. done (elim end [
      | none ↦ none
      | some (cur_node, visited) ↦ elim (val cur_node) [
        | none ↦ none
        | some x ↦ some (x, λ y. record { root = some (plug (set_val cur_node y) visited) })
      ]
    ])
  ]

  -- The only child of a node goes up into it.
  unfoldable pub merge : Node A → Outcome (Node A)
  merge parent = child_pos_from_idx parent 0 >>= λ pos.
      remove_child parent pos >>= λ (removed, emptied). or_panic removed >>= λ child.
      new_prefix (prefix emptied ++ prefix child) >>= λ both.
      let joined = set_prefix emptied both in
      let (left, adopted) = transfer_children child joined in
      let (v, gone) = take_val left in done (elim v [ none ↦ adopted | some x ↦ set_val adopted x ])

  -- A visited child with nothing in it is removed.
  unfoldable pub prune : Node A → ChildPos → Outcome (Node A)
  prune parent child_pos = get_child_by_pos parent child_pos >>= λ child.
      or_panic child >>= λ visited_child.
      if (len_children visited_child == 0) && not (has_val visited_child)
      then (remove_child parent child_pos >>= λ (removed, pruned). done pruned)
      else done parent

  -- The loop of `compress`, with the root that it leaves.
  unfoldable pub compress_loop : Node A → Visited A → Outcome (Node A)
  compress_loop cur [] = done cur
  compress_loop cur ((above, child_pos) ∷ visited) =
      prune (set_child_by_pos above child_pos cur) child_pos >>= λ parent.
      if (len_children parent == 1) && not (has_val parent)
      then (merge parent >>= λ merged. compress_loop merged visited)
      else done (plug parent visited)

  -- The only child of the root, as the new root.
  unfoldable pub raise_child : Node A → Outcome (Node A)
  raise_child root = child_pos_from_idx root 0 >>= λ pos.
      remove_child root pos >>= λ (removed, emptied). or_panic removed >>= λ child.
      new_prefix (prefix emptied ++ prefix child) >>= λ both. done (set_prefix child both)

  -- The end of `compress`, for the root.
  unfoldable pub compress_root : Node A → Outcome (Option (Node A))
  compress_root root =
      if has_val root
      then done (some root)
      else if len_children root == 0
      then done none
      else if len_children root == 1
      then (raise_child root >>= λ child. done (some child))
      else done (some root)

  unfoldable pub compress : Node A → Visited A → Outcome (Option (Node A))
  compress cur visited = compress_loop cur visited >>= λ root. compress_root root

  unfoldable pub remove : TrieMap A → List ℕ → Outcome (Option A × TrieMap A)
  remove t [] = done (none, t)
  remove t (b ∷ k) = elim t.root [
    | none ↦ done (none, t)
    | some n ↦ walk (length (b ∷ k) + 2) n (b ∷ k) [] >>= λ end. elim end [
      | none ↦ done (none, t)
      | some (cur_node, visited) ↦
          let (res, taken) = take_val cur_node in
          elim res [
            | none ↦ done (none, record { root = some (plug taken visited) })
            | some x ↦ compress taken visited >>= λ root. done (some x, record { root = root })
          ]
    ]
  ]

  -- The loop of `remove_prefix`.
  unfoldable pub walk_prefix : ℕ → Node A → List ℕ → Visited A → Outcome (Option (Visited A))
  walk_prefix zero cur_node rem_pref visited = exhausted
  walk_prefix (suc fuel) cur_node rem_pref visited = lcp (prefix cur_node) rem_pref >>= λ lcp_len.
      let rest = drop lcp_len rem_pref in
      let descend = λ (next_pos : ChildPos). get_child_by_pos cur_node next_pos >>= λ child.
      or_panic child >>= λ c. walk_prefix fuel c rest ((cur_node, next_pos) ∷ visited) in
      let go = head_byte rest >>= λ byte.
      let next_pos = child_pos_from_byte byte in
      if child_exists cur_node next_pos then descend next_pos else done none in
      if lcp_len == length rem_pref
      then done (some visited)
      else if ltb lcp_len (length (prefix cur_node))
      then done none
      else go

  unfoldable pub remove_prefix : TrieMap A → List ℕ → Outcome (TrieMap A)
  remove_prefix t [] = done (record { root = none })
  remove_prefix t (b ∷ k) = elim t.root [
    | none ↦ done t
    | some n ↦ walk_prefix (length (b ∷ k) + 2) n (b ∷ k) [] >>= λ end. elim end [
      | none ↦ done t
      | some [] ↦ done (record { root = none })
      | some ((term_parent, child_pos) ∷ visited) ↦
          remove_child term_parent child_pos >>= λ (removed, parent).
          compress parent visited >>= λ root. done (record { root = root })
    ]
  ]
