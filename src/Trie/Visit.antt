-- ===== src/Trie/Visit.antt =====
-- `for_each_prefix` of algors-trie/src/trie.rs, with the suffixes that it hands out. The calls of the
-- closure are a list, in their order; a client folds its own state over them.
pub mod Correct
pub mod Lengths
use algors.Prelude.{
  ℕ, ◌+◌, List, [], ◌∷◌, ◌++◌, Option, none, some, Bool, Outcome, done, ◌>>=◌, ◌==◌, if◌then◌else◌,
  length, drop,
}
use algors.Trie.Node.{Node, leaf, internal, Nodes, nil, cons, prefix}
use algors.Trie.Map.{TrieMap}
use algors.Trie.Prefix.{find_prefix_node}

pub record SuffixRef : Type 0 where
  pub chunks : List (List ℕ)
  pub len : ℕ

-- The loop of `to_vec`.
unfoldable pub extend_all : List ℕ → List (List ℕ) → List ℕ
extend_all out [] = out
extend_all out (chunk ∷ chunks) = extend_all (out ++ chunk) chunks

unfoldable pub to_vec : SuffixRef → List ℕ
to_vec s = extend_all [] s.chunks

pub is_empty : SuffixRef → Bool
is_empty s = s.len == 0

-- The call for the value of a node, if it has one.
unfoldable pub call {ℓ} : {A : Type ℓ} → Option A → List (List ℕ) → ℕ → List (SuffixRef × A)
call none chunks current_len = []
call (some value) chunks current_len = (record { chunks = chunks; len = current_len }, value) ∷ []

-- `for_each_prefix_from_node`. The children are those of the child vector, in its order.
unfoldable mutual
  pub visit {ℓ} : {A : Type ℓ} → Node A → List (List ℕ) → ℕ → List (SuffixRef × A)
  visit (leaf p v) chunks current_len = call v chunks current_len
  visit (internal p v m cs) chunks current_len =
      call v chunks current_len ++ visit_children cs chunks current_len

  pub visit_children {ℓ} : {A : Type ℓ} → Nodes A → List (List ℕ) → ℕ → List (SuffixRef × A)
  visit_children nil chunks current_len = []
  visit_children (cons c cs) chunks current_len =
      visit c (chunks ++ prefix c ∷ []) (current_len + length (prefix c))
      ++ visit_children cs chunks current_len

-- The visit of the node at which the searched prefix ends.
unfoldable pub visit_from {ℓ} : {A : Type ℓ} → Node A → ℕ → List (SuffixRef × A)
visit_from node offset =
    let first = drop offset (prefix node) in
    if length first == 0 then visit node [] 0 else visit node (first ∷ []) (0 + length first)

unfoldable pub for_each_prefix {ℓ} :
    {A : Type ℓ} → TrieMap A → List ℕ → Outcome (List (SuffixRef × A))
for_each_prefix t key = find_prefix_node t key >>= λ found.
    done (elim found [ none ↦ [] | some (node, offset) ↦ visit_from node offset ])
