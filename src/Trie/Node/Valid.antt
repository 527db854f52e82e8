-- ===== src/Trie/Node/Valid.antt =====
-- When a node of algors-trie/src/node.rs is well formed: the children stand in the order of their
-- first bytes, the bitmap marks exactly these bytes, and no child has an empty prefix.
use algors.Prelude.{ℕ, ◌<◌, ◌≡◌, ◌∙◌, List, some, arith, done, ◌==◌, length, get_or}
use algors.Prelude.Bits.{sum_below-ext}
use algors.Trie.Bytes.{IsBytes}
use algors.Trie.Bitmap
use algors.Trie.Bitmap.{Bitmap, empty, child_pos_from_byte, set_bit, clear_bit}
use algors.Trie.Bitmap.Laws.{digit, child_exists-digit, child_idx-sum, len_children-sum}
use algors.Trie.Keyed.{Ascending, find, place, mark, place-sum, place-length, find-place}
use algors.Trie.Node.{Node, leaf, internal, Nodes, nil, cons, to_list, prefix, vec_get}

-- The first byte of a node's prefix.
abbrev pub key {ℓ} : {A : Type ℓ} → Node A → ℕ
unfolding prefix
key n = get_or (prefix n) 0 0

-- The bitmap marks the bytes at which a child is found.
abbrev pub Agrees {ℓ} : {A : Type ℓ} → Bitmap → List (Node A) → Type 0
Agrees m cs = (j : ℕ) → j < 256 → digit m j ≡ mark (find key j cs)

-- What is asked of a node by itself.
pub record IsShallow {ℓ} {A : Type ℓ} (m : Bitmap) (cs : List (Node A)) : Type 0 where
  pub agrees : Agrees m cs
  pub ascending : Ascending key 0 256 cs

unfoldable mutual
  pub IsValid {ℓ} : {A : Type ℓ} → Node A → Type 0
  IsValid (leaf p v) = IsBytes p
  IsValid (internal p v m cs) = IsBytes p × IsShallow m (to_list cs) × AreValid cs

  pub AreValid {ℓ} : {A : Type ℓ} → Nodes A → Type 0
  AreValid nil = Unit {0}
  AreValid (cons c cs) = (0 < length (prefix c)) × IsValid c × AreValid cs

module _ {ℓ} {A : Type ℓ} (m : Bitmap) (cs : List (Node A)) (s : IsShallow m cs) where
  -- The position that the bitmap gives is the place among the children.
  pub idx-place :
      (b : ℕ) → b < 256 → Bitmap.child_idx_from_pos m (child_pos_from_byte b) ≡ place key b cs
  idx-place b h =
      child_idx-sum m b h
      ∙ sum_below-ext b (digit m) _ (λ j lt. s.agrees j (omega arith))
      ∙ place-sum key b 0 256 cs s.ascending

  pub len-length : Bitmap.len_children m ≡ length cs
  len-length =
      len_children-sum m
      ∙ sum_below-ext 256 (digit m) _ s.agrees
      ∙ place-sum key 256 0 256 cs s.ascending
      ∙ place-length key 256 0 256 cs s.ascending (omega arith)

  pub exists-find :
      (b : ℕ)
      → b < 256
      → Bitmap.child_exists m (child_pos_from_byte b) ≡ (mark (find key b cs) == 1)
  exists-find b h = rw (child_exists-digit m b h, s.agrees b h)

  -- A child that is marked is read inside the vector.
  pub get-find :
      (b : ℕ) (c : Node A)
      → b < 256
      → find key b cs ≡ some c
      → vec_get cs (Bitmap.child_idx_from_pos m (child_pos_from_byte b)) (Bitmap.len_children m)
        ≡ done (some c)
  unfolding vec_get
  get-find b c h e =
      let at = find-place key b 0 256 cs c s.ascending e in
      rw (idx-place b h, len-length, at.0) (ground arith)
