-- ===== src/Trie/Remove/Tests.antt =====
-- Removals from a map of the keys "test", "team" and "te", and the theorems at this map.
use algors.Prelude.{
  ℕ, ◌≡◌, refl, List, [], ◌∷◌, none, some, true, false, Option, arith, done, Yields, ◌^◌,
}
use algors.Prelude.Words.{trailing_zeros}
use algors.Prelude.Bits.{count_ones}
use algors.Trie.Bitmap
use algors.Trie.Bitmap.{child_pos_from_byte, set_bit, clear_bit, set_word, word_at}
use algors.Trie.Lcp.{word, read_unaligned, diff, compare_at, compare_tail, loop16, two_words, lcp}
use algors.Trie.Node
use algors.Trie.Node.{
  Node, leaf, internal, nil, cons, insert_child, upgrade_to_internal, insert_internal, vec_insert,
  prefix, set_val, put_val,
}
use algors.Trie.Tests.{
  test_key, team_key, te_key, fork_map, fork-IsMap, test_key-IsBytes, team_key-IsBytes,
}
use algors.Trie.Map.{TrieMap, new, get, contains, head_byte}
use algors.Trie.Remove.{
  walk, plug, get_mut, merge, prune, compress_loop, raise_child, compress_root, compress, remove,
  walk_prefix, remove_prefix,
}
use algors.Trie.Remove.Correct.{IsRemoved, remove-IsRemoved, IsLent, get_mut-IsLent}
use algors.Trie.Remove.PrefixCorrect.{IsCut, remove_prefix-IsCut}
use algors.Trie.Remove.Histories.{
  Call, inserts, removes, removes_prefix, AllOfBytes, call_all, effects, get-call_all,
}

abbrev single : TrieMap ℕ
single = record {
  root = some (internal test_key (some 1) (record { w0 = 0; w1 = 0; w2 = 0; w3 = 0 }) nil);
}

-- The node that is left with one child is joined with it.
team_removed : remove fork_map team_key ≡ done (some 2, single)
unfolding remove walk plug merge Node.new_prefix prune compress_loop raise_child compress_root
    compress head_byte prefix put_val set_val Node.take_val Node.val Node.has_val Node.len_children
    Node.set_prefix Node.transfer_children Node.child_exists Node.get_child_by_pos
    Node.get_child_by_idx Node.child_idx_from_pos Node.child_pos_from_idx Node.set_child_by_pos
    Node.vec_get Node.remove_child Node.vec_remove Node.first_byte lcp loop16 two_words compare_tail
    compare_at read_unaligned diff word trailing_zeros child_pos_from_byte clear_bit set_word
    word_at Bitmap.child_idx_from_pos Bitmap.len_children Bitmap.child_exists count_ones
team_removed = refl

-- "t", "te" and "tes"
abbrev chain : Option ℕ → TrieMap ℕ
chain v = record {
  root = some (
      internal (116 ∷ []) (some 1) (record { w0 = 0; w1 = 2 ^ 37; w2 = 0; w3 = 0 })
        (cons
          (internal (101 ∷ []) v (record { w0 = 0; w1 = 2 ^ 51; w2 = 0; w3 = 0 })
            (cons (leaf (115 ∷ []) (some 3)) nil))
          nil));
}

-- The node whose value is taken is not joined with its only child.
te_removed : remove (chain (some 2)) te_key ≡ done (some 2, chain none)
unfolding remove walk plug merge Node.new_prefix prune compress_loop raise_child compress_root
    compress head_byte prefix put_val set_val Node.take_val Node.val Node.has_val Node.len_children
    Node.set_prefix Node.transfer_children Node.child_exists Node.get_child_by_pos
    Node.get_child_by_idx Node.child_idx_from_pos Node.child_pos_from_idx Node.set_child_by_pos
    Node.vec_get Node.remove_child Node.vec_remove Node.first_byte lcp loop16 two_words compare_tail
    compare_at read_unaligned diff word trailing_zeros child_pos_from_byte clear_bit set_word
    word_at Bitmap.child_idx_from_pos Bitmap.len_children Bitmap.child_exists count_ones
te_removed = refl

-- The root is replaced by its only child, if the nodes below a prefix are removed.
tea_removed :
    remove_prefix fork_map (116 ∷ 101 ∷ 97 ∷ [])
    ≡ done (record { root = some (leaf test_key (some 1)) })
unfolding remove_prefix walk_prefix plug merge Node.new_prefix prune compress_loop raise_child
    compress_root compress head_byte prefix put_val set_val Node.take_val Node.val Node.has_val
    Node.len_children Node.set_prefix Node.transfer_children Node.child_exists Node.get_child_by_pos
    Node.get_child_by_idx Node.child_idx_from_pos Node.child_pos_from_idx Node.set_child_by_pos
    Node.vec_get Node.remove_child Node.vec_remove Node.first_byte lcp loop16 two_words compare_tail
    compare_at read_unaligned diff word trailing_zeros child_pos_from_byte clear_bit set_word
    word_at Bitmap.child_idx_from_pos Bitmap.len_children Bitmap.child_exists count_ones
tea_removed = refl

remove-IsRemoved_example : Yields (IsRemoved fork_map team_key) (remove fork_map team_key)
remove-IsRemoved_example = remove-IsRemoved fork_map team_key fork-IsMap team_key-IsBytes

get_mut-IsLent_example : Yields (IsLent fork_map test_key) (get_mut fork_map test_key)
get_mut-IsLent_example = get_mut-IsLent fork_map test_key fork-IsMap.0 test_key-IsBytes

remove_prefix-IsCut_example : Yields (IsCut fork_map te_key) (remove_prefix fork_map te_key)
remove_prefix-IsCut_example = remove_prefix-IsCut fork_map te_key fork-IsMap (omega arith)

abbrev calls : List (Call ℕ)
calls =
    inserts test_key 1
    ∷ inserts te_key 3
    ∷ removes te_key
    ∷ inserts team_key 2
    ∷ removes_prefix (116 ∷ 101 ∷ 97 ∷ [])
    ∷ []

calls-AllOfBytes : AllOfBytes calls
calls-AllOfBytes = omega arith

get-call_all_example :
    Yields
      (λ t.
        (get t test_key ≡ done (effects calls (λ i. none) test_key))
        × (contains t test_key
            ≡ done (elim (effects calls (λ i. none) test_key) [ none ↦ false | some x ↦ true ])))
      (call_all calls new)
get-call_all_example = get-call_all calls test_key calls-AllOfBytes test_key-IsBytes
