-- ===== src/Trie/Tests.antt =====
-- Runs of the trie on short keys, and the theorems at such tries.
use algors.Prelude.{
  ℕ, ◌≡◌, refl, subst, List, [], ◌∷◌, ◌++◌, none, some, false, arith, done, Yields, Yields-done,
  ◌^◌, ◌+◌,
}
use algors.Prelude.Words.{trailing_zeros}
use algors.Prelude.Bits.{count_ones, sum_below}
use algors.Trie.Bytes.{IsBytes, common}
use algors.Trie.Bitmap
use algors.Trie.Bitmap.{Bitmap, child_pos_from_byte, set_bit, clear_bit, set_word, word_at}
use algors.Trie.Bitmap.Laws.{digit, child_idx-sum}
use algors.Trie.Lcp.{word, read_unaligned, diff, compare_at, compare_tail, loop16, two_words, lcp}
use algors.Trie.Lcp.Correct.{lcp-common}
use algors.Trie.Node
use algors.Trie.Node.{
  Node, children, leaf, internal, nil, cons, insert_child, remove_child, upgrade_to_internal,
  insert_internal, vec_insert, prefix, set_val, put_val,
}
use algors.Trie.Node.Valid.{IsValid}
use algors.Trie.Node.Update.{IsChild, IsUpdate, insert_child-IsUpdate, remove_child-IsUpdate}
use algors.Trie.Node.Fits.{leaf-Fits, internal-Fits}
use algors.Trie.Keyed.{find}
use algors.Trie.Prefix.{find_loop, find_prefix_node}
use algors.Trie.Prefix.Correct.{IsEnd, find_prefix_node-IsEnd}
use algors.Trie.Visit.{call, visit, visit_from, for_each_prefix}
use algors.Trie.Visit.Correct.{values_of, once, for_each_prefix-once}
use algors.Trie.Visit.Lengths.{AreMeasured, for_each_prefix-AreMeasured}
use algors.Trie.Lookup.{lookup?}
use algors.Trie.Map.{TrieMap, new, insert, get, contains, insert_loop, get_loop, split, head_byte}
use algors.Trie.Map.Get.{IsMap}
use algors.Trie.Map.Laws.{Holds, insert-Holds, insert_all}

-- "test", "team", "te" and "slow"
abbrev pub test_key : List ℕ
test_key = 116 ∷ 101 ∷ 115 ∷ 116 ∷ []

abbrev pub team_key : List ℕ
team_key = 116 ∷ 101 ∷ 97 ∷ 109 ∷ []

abbrev pub te_key : List ℕ
te_key = 116 ∷ 101 ∷ []

abbrev slow_key : List ℕ
slow_key = 115 ∷ 108 ∷ 111 ∷ 119 ∷ []

abbrev te_leaf : Node ℕ
te_leaf = leaf te_key none

abbrev st_leaf : Node ℕ
st_leaf = leaf (115 ∷ 116 ∷ []) (some 1)

abbrev am_leaf : Node ℕ
am_leaf = leaf (97 ∷ 109 ∷ []) (some 2)

-- The children of a node that splits "test" and "team".
abbrev pub fork : Node ℕ
fork =
    internal te_key none (record { w0 = 0; w1 = 2 ^ 33 + 2 ^ 51; w2 = 0; w3 = 0 })
      (cons am_leaf (cons st_leaf nil))

abbrev stub : Node ℕ
stub = internal te_key none (record { w0 = 0; w1 = 2 ^ 51; w2 = 0; w3 = 0 }) (cons st_leaf nil)

fork_built : insert_child stub (child_pos_from_byte 97) am_leaf ≡ done fork
unfolding insert_child upgrade_to_internal insert_internal vec_insert child_pos_from_byte set_bit
    set_word word_at Bitmap.child_idx_from_pos Bitmap.len_children count_ones
fork_built = refl

stub_built : insert_child te_leaf (child_pos_from_byte 115) st_leaf ≡ done stub
unfolding insert_child upgrade_to_internal insert_internal vec_insert child_pos_from_byte set_bit
    set_word word_at Bitmap.child_idx_from_pos Bitmap.len_children count_ones
stub_built = refl

abbrev tree : TrieMap ℕ
tree = record { root = some fork }

abbrev pub fork_map : TrieMap ℕ
fork_map = record { root = some fork }

-- "test" and "team" share a prefix, so that the second insertion splits the leaf of the first.
two_inserted : insert_all new ((test_key, 1) ∷ (team_key, 2) ∷ []) ≡ done fork_map
unfolding insert_all new insert insert_loop split head_byte set_val put_val prefix Node.new
    Node.new_prefix Node.first_byte Node.take_val Node.val Node.set_prefix Node.transfer_children
    Node.child_exists lcp loop16 two_words compare_tail compare_at read_unaligned diff word
    trailing_zeros insert_child upgrade_to_internal insert_internal vec_insert child_pos_from_byte
    set_bit set_word word_at Bitmap.child_idx_from_pos Bitmap.len_children Bitmap.child_exists
    count_ones
two_inserted = refl

queries :
    (get fork_map test_key ≡ done (some 1))
    × (get fork_map team_key ≡ done (some 2))
    × (get fork_map te_key ≡ done none)
    × (contains fork_map slow_key ≡ done false)
unfolding get get_loop contains head_byte prefix Node.val Node.child_exists Node.get_child_by_pos
    Node.get_child_by_idx Node.child_idx_from_pos Node.vec_get lcp loop16 two_words compare_tail
    compare_at read_unaligned diff word trailing_zeros child_pos_from_byte word_at
    Bitmap.child_idx_from_pos Bitmap.len_children Bitmap.child_exists count_ones
queries = (refl, refl, refl, refl)

pub test_key-IsBytes : IsBytes test_key
test_key-IsBytes = omega arith

pub team_key-IsBytes : IsBytes team_key
team_key-IsBytes = omega arith

te_leaf-IsValid : IsValid te_leaf
unfolding IsValid
te_leaf-IsValid = omega arith

st_leaf-IsChild : IsChild st_leaf
unfolding IsValid prefix
st_leaf-IsChild = omega arith

am_leaf-IsChild : IsChild am_leaf
unfolding IsValid prefix
am_leaf-IsChild = omega arith

stub-IsUpdate : IsUpdate te_leaf 115 (some st_leaf) stub
unfolding prefix children find
stub-IsUpdate = Yields-done (
    subst (Yields (IsUpdate te_leaf 115 (some st_leaf))) stub_built
      (insert_child-IsUpdate te_leaf st_leaf te_leaf-IsValid (omega arith) refl st_leaf-IsChild))

pub fork-IsUpdate : IsUpdate stub 97 (some am_leaf) fork
unfolding prefix children find
fork-IsUpdate = Yields-done (
    subst (Yields (IsUpdate stub 97 (some am_leaf))) fork_built
      (insert_child-IsUpdate stub am_leaf stub-IsUpdate.valid (omega arith) refl am_leaf-IsChild))

pub fork-IsMap : IsMap fork_map
fork-IsMap = (
  fork-IsUpdate.valid,
  internal-Fits (2 ^ 32) (116 ∷ 101 ∷ []) _ _ _ (omega arith)
      (leaf-Fits _ _ _ (omega arith), (leaf-Fits _ _ _ (omega arith), tt)),
)

lcp-common_example : lcp test_key team_key ≡ done (common test_key team_key)
lcp-common_example = lcp-common test_key team_key test_key-IsBytes team_key-IsBytes

child_idx-sum_example :
    Bitmap.child_idx_from_pos
      (record { w0 = 0; w1 = 2 ^ 33 + 2 ^ 51; w2 = 0; w3 = 0 })
      (child_pos_from_byte 115)
    ≡ sum_below 115 (digit (record { w0 = 0; w1 = 2 ^ 33 + 2 ^ 51; w2 = 0; w3 = 0 }))
child_idx-sum_example =
    child_idx-sum (record { w0 = 0; w1 = 2 ^ 33 + 2 ^ 51; w2 = 0; w3 = 0 }) 115 (omega arith)

insert_child-IsUpdate_example :
    Yields (IsUpdate stub 97 (some am_leaf)) (insert_child stub (child_pos_from_byte 97) am_leaf)
unfolding prefix children find
insert_child-IsUpdate_example =
    insert_child-IsUpdate stub am_leaf stub-IsUpdate.valid (omega arith) refl am_leaf-IsChild

remove_child-IsUpdate_example :
    Yields
      (λ (res, n'). (res ≡ some am_leaf) × IsUpdate fork 97 none n')
      (remove_child fork (child_pos_from_byte 97))
unfolding prefix children find
remove_child-IsUpdate_example =
    remove_child-IsUpdate fork 97 am_leaf fork-IsUpdate.valid (omega arith) refl

insert-Holds_example :
    Yields (λ t'. IsMap t' × Holds fork_map te_key 7 t') (insert fork_map te_key 7)
insert-Holds_example = insert-Holds fork_map te_key 7 fork-IsMap (omega arith) (omega arith)

find_prefix_node-IsEnd_example :
    Yields
      (IsEnd (λ s. lookup? fork_map.root (116 ∷ [] ++ s)))
      (find_prefix_node fork_map (116 ∷ []))
find_prefix_node-IsEnd_example =
    find_prefix_node-IsEnd fork_map (116 ∷ []) fork-IsUpdate.valid (omega arith)

prefix_runs :
    (find_prefix_node fork_map (116 ∷ []) ≡ done (some (fork, 1)))
    × (find_prefix_node fork_map (116 ∷ 101 ∷ 97 ∷ []) ≡ done (some (am_leaf, 1)))
    × (find_prefix_node fork_map (116 ∷ 101 ∷ 98 ∷ []) ≡ done none)
unfolding find_prefix_node find_loop head_byte prefix Node.child_exists Node.get_child_by_pos
    Node.get_child_by_idx Node.child_idx_from_pos Node.vec_get lcp loop16 two_words compare_tail
    compare_at read_unaligned diff word trailing_zeros child_pos_from_byte word_at
    Bitmap.child_idx_from_pos Bitmap.len_children Bitmap.child_exists count_ones
prefix_runs = (refl, refl, refl)

for_each_prefix-once_example :
    Yields
      (λ calls. (s : List ℕ) → values_of s calls ≡ once (lookup? fork_map.root (116 ∷ [] ++ s)))
      (for_each_prefix fork_map (116 ∷ []))
for_each_prefix-once_example =
    for_each_prefix-once fork_map (116 ∷ []) fork-IsUpdate.valid (omega arith)

-- The suffixes "eam" and "est" after "t", in two chunks each.
visit_runs :
    for_each_prefix fork_map (116 ∷ [])
    ≡ done (
        (record { chunks = (101 ∷ []) ∷ (97 ∷ 109 ∷ []) ∷ []; len = 3 }, 2)
        ∷ (record { chunks = (101 ∷ []) ∷ (115 ∷ 116 ∷ []) ∷ []; len = 3 }, 1)
        ∷ [])
unfolding for_each_prefix visit_from visit call find_prefix_node find_loop head_byte prefix
    Node.child_exists Node.get_child_by_pos Node.get_child_by_idx Node.child_idx_from_pos
    Node.vec_get lcp loop16 two_words compare_tail compare_at read_unaligned diff word
    trailing_zeros child_pos_from_byte word_at Bitmap.child_idx_from_pos Bitmap.len_children
    Bitmap.child_exists count_ones
visit_runs = refl

for_each_prefix-AreMeasured_example : Yields AreMeasured (for_each_prefix fork_map (116 ∷ []))
for_each_prefix-AreMeasured_example =
    for_each_prefix-AreMeasured fork_map (116 ∷ []) fork-IsUpdate.valid (omega arith)
