-- ===== src/Trie/Map.antt =====
-- algors-trie/src/trie.rs: the map. A loop that walks down through mutable references is a function
-- that returns the changed node, and writes it back into its parent. Each round takes fuel; the
-- length of the key and two more are enough.
pub mod Get
pub mod Insert
pub mod Split
pub mod Correct
pub mod Laws
use algors.Prelude.{
  ℕ, zero, suc, ◌+◌, List, [], ◌∷◌, Option, none, some, Bool, true, false, Outcome, done, panic,
  undefined, exhausted, ◌>>=◌, or_panic, ltb, ◌==◌, if◌then◌else◌, length, get_elem?, take, drop,
}
use algors.Trie.Bitmap.{ChildPos, child_pos_from_byte}
use algors.Trie.Lcp.{lcp}
use algors.Trie.Node
use algors.Trie.Node.{
  Node, new_prefix, prefix, set_prefix, val, take_val, set_val, child_exists, get_child_by_pos,
  set_child_by_pos, first_byte, insert_child, transfer_children,
}

pub record TrieMap {ℓ} (A : Type ℓ) : Type ℓ where
  pub root : Option (Node A)

-- `cur_data[0]`
unfoldable pub head_byte : List ℕ → Outcome ℕ
head_byte xs = or_panic (get_elem? xs 0)

module _ {ℓ} {A : Type ℓ} where
  unfoldable pub new : TrieMap A
  new = record { root = none }

  pub is_empty : TrieMap A → Bool
  is_empty t = elim t.root [ none ↦ true | some n ↦ false ]

  pub clear : TrieMap A → TrieMap A
  clear t = record { root = none }

  -- The loop of `get`, from `cur_node` and `cur_data` on.
  unfoldable pub get_loop : ℕ → Node A → List ℕ → Outcome (Option A)
  get_loop zero cur_node cur_data = exhausted
  get_loop (suc fuel) cur_node cur_data = lcp (prefix cur_node) cur_data >>= λ lcp_len.
      let rest = drop lcp_len cur_data in
      let descend = λ (child_pos : ChildPos). get_child_by_pos cur_node child_pos >>= λ child.
      or_panic child >>= λ c. get_loop fuel c rest in
      let walk = head_byte rest >>= λ byte.
      let child_pos = child_pos_from_byte byte in
      if child_exists cur_node child_pos then descend child_pos else done none in
      if ltb lcp_len (length (prefix cur_node))
      then done none
      else if lcp_len == length cur_data
      then done (val cur_node)
      else walk

  unfoldable pub get : TrieMap A → List ℕ → Outcome (Option A)
  get t [] = done none
  get t (b ∷ k) = elim t.root [
    | none ↦ done none
    | some n ↦ get_loop (length (b ∷ k) + 2) n (b ∷ k)
  ]

  unfoldable pub contains : TrieMap A → List ℕ → Outcome Bool
  contains t key = get t key >>= λ v. done (elim v [ none ↦ false | some x ↦ true ])

  -- The new child that takes over the end of the prefix, the value and the children.
  unfoldable pub split : Node A → ℕ → Outcome (Node A)
  split cur_node lcp_len = Node.new (drop lcp_len (prefix cur_node)) >>= λ (fresh : Node A).
      let (v, taken) = take_val cur_node in
      let valued : Node A = elim v [ none ↦ fresh | some x ↦ set_val fresh x ] in
      new_prefix (take lcp_len (prefix taken)) >>= λ start.
      let shortened = set_prefix taken start in
      let (parent, split_node) = transfer_children shortened valued in
      first_byte (prefix split_node) >>= λ byte.
      insert_child parent (child_pos_from_byte byte) split_node

  -- The loop of `insert`.
  unfoldable pub insert_loop : ℕ → Node A → List ℕ → A → Outcome (Node A)
  insert_loop zero cur_node cur_data v = exhausted
  insert_loop (suc fuel) cur_node cur_data v = lcp (prefix cur_node) cur_data >>= λ lcp_len.
      let rest = drop lcp_len cur_data in
      let descend = λ (n : Node A) (child_pos : ChildPos). get_child_by_pos n child_pos >>= λ child.
      or_panic child >>= λ c.
      insert_loop fuel c rest v >>= λ d. done (set_child_by_pos n child_pos d) in
      let finish = λ (n : Node A).
        if lcp_len == length cur_data
        then done (set_val n v)
        else (head_byte rest >>= λ byte.
            let child_pos = child_pos_from_byte byte in
            if child_exists n child_pos
            then descend n child_pos
            else (Node.new rest >>= λ fresh. insert_child n child_pos (set_val fresh v))) in
      (if ltb lcp_len (length (prefix cur_node)) then split cur_node lcp_len else done cur_node)
      >>= finish

  unfoldable pub insert : TrieMap A → List ℕ → A → Outcome (TrieMap A)
  insert t [] v = done t
  insert t (b ∷ k) v = elim t.root [
    | none ↦ Node.new (b ∷ k) >>= λ fresh. done (record { root = some (set_val fresh v) })
    | some n ↦ insert_loop (length (b ∷ k) + 2) n (b ∷ k) v >>= λ m. done (record { root = some m })
  ]
