-- ===== src/Trie/Node.antt =====
-- algors-trie/src/node.rs: the nodes of the radix tree. The two tag bits of the pointer are the two
-- constructors and the `Option` of the value. A prefix is the byte slice that it stands for, and the
-- child vector the list of its elements; using either outside its contract is `undefined`.
pub mod Valid
pub mod Update
pub mod Fits
use algors.Prelude.{
  ℕ, zero, suc, ◌+◌, ◌-◌, ◌<◌, ◌≡◌, refl, ap, List, [], ◌∷◌, Option, none, some, Bool, true, false,
  arith, Outcome, done, panic, undefined, exhausted, ◌>>=◌, leb, ltb, ◌^◌, ◌==◌, if◌then◌else◌,
  length, get_elem?, set,
}
use algors.Trie.Bitmap
use algors.Trie.Bitmap.{Bitmap, ChildPos, empty, child_pos_from_byte, set_bit, clear_bit}
use algors.Trie.Keyed.{insert_at, remove_at}

mutual
  pub data Node {ℓ} (A : Type ℓ) : Type ℓ where
    leaf : List ℕ → Option A → Node A
    internal : List ℕ → Option A → Bitmap → Nodes A → Node A

  pub data Nodes {ℓ} (A : Type ℓ) : Type ℓ where
    nil : Nodes A
    cons : Node A → Nodes A → Nodes A

-- The bytes of a prefix that `Prefix::new` or `Prefix::from_slices` makes: it panics if their number is not a `u32`.
unfoldable pub new_prefix : List ℕ → Outcome (List ℕ)
new_prefix content = if ltb (length content) (2 ^ 32) then done content else panic

-- `Prefix::first_byte`, whose debug assertion refuses an empty prefix.
unfoldable pub first_byte : List ℕ → Outcome ℕ
first_byte [] = panic
first_byte (x ∷ xs) = done x

module _ {ℓ} {A : Type ℓ} where
  abbrev pub to_list : Nodes A → List (Node A)
  to_list nil = []
  to_list (cons c cs) = c ∷ to_list cs

  abbrev pub from_list : List (Node A) → Nodes A
  from_list [] = nil
  from_list (c ∷ cs) = cons c (from_list cs)

  pub to_list-from_list : (cs : List (Node A)) → to_list (from_list cs) ≡ cs
  to_list-from_list [] = refl
  to_list-from_list (c ∷ cs) = ap (◌∷◌ c) (to_list-from_list cs)

  -- `BoundedRawVec::get`: `len` is the caller's.
  unfoldable pub vec_get : List (Node A) → ℕ → ℕ → Outcome (Option (Node A))
  vec_get cs i len =
      if leb len i
      then done none
      else elim (get_elem? cs i) [ none ↦ undefined | some c ↦ done (some c) ]

  -- `BoundedRawVec::insert`. At 256 elements the assertion on the tag fails.
  unfoldable pub vec_insert : List (Node A) → ℕ → Node A → ℕ → Outcome (List (Node A))
  vec_insert cs i element len =
      if len == length cs
      then (if leb 256 len
          then panic
          else if leb i len
          then done (insert_at cs i element)
          else undefined)
      else undefined

  -- `BoundedRawVec::remove`
  unfoldable pub vec_remove : List (Node A) → ℕ → ℕ → Outcome (Option (Node A) × List (Node A))
  vec_remove cs i len =
      if leb len i
      then done (none, cs)
      else elim (get_elem? cs i) [ none ↦ undefined | some c ↦ done (some c, remove_at cs i) ]

  -- `Node::new`, a leaf with no value.
  unfoldable pub new : List ℕ → Outcome (Node A)
  new prefix = new_prefix prefix >>= λ q. done (leaf q none)

  unfoldable pub is_leaf : Node A → Bool
  is_leaf (leaf p v) = true
  is_leaf (internal p v m cs) = false

  unfoldable pub prefix : Node A → List ℕ
  prefix (leaf p v) = p
  prefix (internal p v m cs) = p

  -- A write through `prefix_mut`.
  unfoldable pub set_prefix : Node A → List ℕ → Node A
  set_prefix (leaf p v) q = leaf q v
  set_prefix (internal p v m cs) q = internal q v m cs

  unfoldable pub val : Node A → Option A
  val (leaf p v) = v
  val (internal p v m cs) = v

  unfoldable pub has_val : Node A → Bool
  has_val n = elim (val n) [ none ↦ false | some x ↦ true ]

  -- The value slot and its tag bit, written together.
  unfoldable pub put_val : Node A → Option A → Node A
  put_val (leaf p v) w = leaf p w
  put_val (internal p v m cs) w = internal p w m cs

  unfoldable pub take_val : Node A → Option A × Node A
  take_val n = elim (val n) [ none ↦ (none, n) | some x ↦ (some x, put_val n none) ]

  unfoldable pub set_val : Node A → A → Node A
  set_val n x = put_val n (some x)

  unfoldable pub children : Node A → List (Node A)
  children (leaf p v) = []
  children (internal p v m cs) = to_list cs

  unfoldable pub len_children : Node A → ℕ
  len_children (leaf p v) = 0
  len_children (internal p v m cs) = Bitmap.len_children m

  unfoldable pub child_exists : Node A → ChildPos → Bool
  child_exists (leaf p v) pos = false
  child_exists (internal p v m cs) pos = Bitmap.child_exists m pos

  unfoldable pub child_idx_from_pos : Node A → ChildPos → ℕ
  child_idx_from_pos (leaf p v) pos = 0
  child_idx_from_pos (internal p v m cs) pos = Bitmap.child_idx_from_pos m pos

  unfoldable pub get_child_by_idx : Node A → ℕ → Outcome (Option (Node A))
  get_child_by_idx (leaf p v) idx = done none
  get_child_by_idx (internal p v m cs) idx = vec_get (to_list cs) idx (Bitmap.len_children m)

  unfoldable pub get_child_by_pos : Node A → ChildPos → Outcome (Option (Node A))
  get_child_by_pos n pos = get_child_by_idx n (child_idx_from_pos n pos)

  -- What a write through the reference of `get_mut_child_by_pos` leaves: the child there is replaced.
  unfoldable pub set_child_by_pos : Node A → ChildPos → Node A → Node A
  set_child_by_pos (leaf p v) pos child = leaf p v
  set_child_by_pos (internal p v m cs) pos child =
      internal p v m (from_list (set (to_list cs) (Bitmap.child_idx_from_pos m pos) child))

  unfoldable pub child_pos_from_idx : Node A → ℕ → Outcome ChildPos
  child_pos_from_idx n idx = get_child_by_idx n idx >>= λ found. elim found [
    | none ↦ panic
    | some c ↦ first_byte (prefix c) >>= λ byte. done (child_pos_from_byte byte)
  ]

  unfoldable pub upgrade_to_internal : Node A → Node A
  upgrade_to_internal (leaf p v) = internal p v empty nil
  upgrade_to_internal (internal p v m cs) = internal p v m cs

  unfoldable pub insert_internal : Node A → ChildPos → Node A → Outcome (Node A)
  insert_internal (leaf p v) pos child = undefined
  insert_internal (internal p v m cs) pos child =
      vec_insert (to_list cs) (Bitmap.child_idx_from_pos m pos) child (Bitmap.len_children m)
      >>= λ ds. done (internal p v (set_bit m pos) (from_list ds))

  unfoldable pub insert_child : Node A → ChildPos → Node A → Outcome (Node A)
  insert_child n pos child = insert_internal (upgrade_to_internal n) pos child

  -- The bit is cleared also where nothing was found.
  unfoldable pub remove_child : Node A → ChildPos → Outcome (Option (Node A) × Node A)
  remove_child (leaf p v) pos = done (none, leaf p v)
  remove_child (internal p v m cs) pos =
      vec_remove (to_list cs) (Bitmap.child_idx_from_pos m pos) (Bitmap.len_children m)
      >>= λ (res, ds). done (res, internal p v (clear_bit m pos) (from_list ds))

  -- `self` and `other` after `transfer_children`: nothing happens if `self` is a leaf.
  unfoldable pub transfer_children : Node A → Node A → Node A × Node A
  transfer_children (leaf p v) other = (leaf p v, other)
  transfer_children (internal p v m cs) other =
      (internal p v empty nil, internal (prefix other) (val other) m cs)
