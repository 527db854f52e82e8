-- ===== src/Trie/Remove/Merge.antt =====
-- `compress` in algors-trie/src/trie.rs joins a node with its only child: the tree holds what it held.
use algors.Prelude.{
  ℕ, ◌+◌, ◌^◌, ◌<◌, ◌≤◌, length-append, ◌≡◌, refl, ap, sym, ◌∙◌, inl, inr, List, [], ◌∷◌, ◌++◌,
  Option, none, some, true, false, arith, done, Yields, yields, Yields-bind, ◌==◌, if◌then◌else◌,
  length, Bool-cases, Option-cases,
}
use algors.Trie.Bytes.{IsBytes-append}
use algors.Trie.Bitmap.{child_pos_from_byte}
use algors.Trie.Keyed.{find}
use algors.Trie.Node.{
  Node, new_prefix, leaf, internal, nil, cons, to_list, prefix, set_prefix, val, has_val, put_val,
  take_val, set_val, children, len_children, get_child_by_idx, child_pos_from_idx, vec_get,
  transfer_children,
}
use algors.Trie.Node.Valid.{key, IsValid, len-length}
use algors.Trie.Node.Update.{found, IsChild, IsUpdate, remove_child-IsUpdate}
use algors.Trie.Node.Fits.{new_prefix_lem, Fits, Fits-prefix, Fits-found, Fits-join}
use algors.Trie.Lookup.{strip, strip-append, after, lookup, lookup?, lookup_lem}
use algors.Trie.Map.Get.{prefix-IsBytes}
use algors.Trie.Map.Split.{strip-other, strip-nil, first_byte_lem, first-lt}
use algors.Trie.Remove.{merge, raise_child}

joined_prefix : (p q : List ℕ) → length p + length q < 2 ^ 32 → new_prefix (p ++ q) ≡ done (p ++ q)
joined_prefix p q h = new_prefix_lem (p ++ q) (omega (arith, h, length-append p q))

module _ {ℓ} {A : Type ℓ} where
  -- `n` has the one child `c`.
  abbrev pub IsOnly : Node A → Node A → Type ℓ
  IsOnly n c = (j : ℕ) → found n j ≡ (if key c == j then some c else none)

  pub len_children-length : (n : Node A) → IsValid n → len_children n ≡ length (children n)
  unfolding len_children children IsValid
  len_children-length (leaf p v) valid = refl
  len_children-length (internal p v m cs) valid = len-length m (to_list cs) valid.1

  pub has_val-none : (n : Node A) → has_val n ≡ false → val n ≡ none
  unfolding has_val
  has_val-none n e = elim (Option-cases (val n)) [
    | inl nothing ↦ nothing
    | inr (x, here) ↦ let clash : true ≡ false = rw (has_val, here) at e in cc
  ]

  pub IsOnly-IsChild :
      (n : Node A)
      → IsValid n
      → len_children n ≡ 1
      → (c : Node A) × IsChild c
        × IsOnly n c
        × (child_pos_from_idx n 0 ≡ done (child_pos_from_byte (key c)))
  unfolding children IsValid find len_children child_pos_from_idx get_child_by_idx vec_get prefix
  IsOnly-IsChild (leaf p v) valid e = absurd (omega arith)
  IsOnly-IsChild (internal p v m nil) valid e =
      absurd (omega (arith, len_children-length (internal p v m nil) valid))
  IsOnly-IsChild (internal p v m (cons c nil)) valid e =
      let (pos, ok, rest) = valid.2 in
      (c, (pos, ok), λ j. refl, rw (e, first_byte_lem (prefix c) pos) refl)
  IsOnly-IsChild (internal p v m (cons c (cons d ds))) valid e =
      absurd (omega (arith, len_children-length (internal p v m (cons c (cons d ds))) valid))

  -- A node with the prefix of both, and the value and the children of the child.
  pub record IsJoined (n c m : Node A) : Type ℓ where
    pub valid : IsValid m
    pub joined : prefix m ≡ prefix n ++ prefix c
    pub same_val : val m ≡ val c
    pub finds : (j : ℕ) → found m j ≡ found c j

  pub joined-lookup :
      (n c m : Node A)
      → val n ≡ none
      → IsChild c
      → IsOnly n c
      → IsJoined n c m
      → (j : List ℕ) → lookup m j ≡ lookup n j
  unfolding prefix
  joined-lookup n c m empty child only join j =
      rw
        (
          lookup_lem m j,
          lookup_lem n j,
          join.joined,
          strip-append (prefix n) (prefix c) j,
          join.same_val,
          empty,
        )
        (at (strip (prefix n) j))
    where
      same_children :
          (s : Option (List ℕ))
          → after s none (val c) (λ b r. lookup? (found m b) r)
            ≡ after s none (val c) (λ b r. lookup? (found c b) r)
      same_children none = refl
      same_children (some []) = refl
      same_children (some (b ∷ r)) = rw (join.finds b) refl

      at :
          (s : Option (List ℕ))
          → after
              (elim s [ none ↦ none | some t ↦ strip (prefix c) t ])
              none
              (val c)
              (λ b r. lookup? (found m b) r)
            ≡ after s none none (λ b r. lookup? (found n b) r)
      at none = refl
      at (some []) = rw (strip-nil (prefix c) child.0) refl
      at (some (b ∷ t)) = elim (Bool-cases (key c == b)) [
        | inl here ↦
            rw (only b, here)
              (same_children (strip (prefix c) (b ∷ t)) ∙ sym (lookup_lem c (b ∷ t)))
        | inr there ↦ rw (only b, there, strip-other (prefix c) b t child.0 there) refl
      ]

  -- The child with the prefix of the node before its own, as a new root.
  pub raised-IsJoined :
      (n c : Node A) → IsValid n → IsChild c → IsJoined n c (set_prefix c (prefix n ++ prefix c))
  unfolding set_prefix prefix val children IsValid
  raised-IsJoined n (leaf q v) valid child = record {
    valid = IsBytes-append (prefix n) q (prefix-IsBytes n valid) child.1;
    joined = refl;
    same_val = refl;
    finds = λ j. refl;
  }
  raised-IsJoined n (internal q v m cs) valid child = record {
    valid = (IsBytes-append (prefix n) q (prefix-IsBytes n valid) child.1.0, child.1.1, child.1.2);
    joined = refl;
    same_val = refl;
    finds = λ j. refl;
  }

  -- What `merge` makes of the node without its child, and of the child.
  fused : Node A → Node A → Node A
  fused emptied child =
      let (left, adopted) =
        transfer_children child (set_prefix emptied (prefix emptied ++ prefix child)) in
      let (v, gone) = take_val left in elim v [ none ↦ adopted | some x ↦ set_val adopted x ]

  fused-IsJoined :
      (e c : Node A)
      → IsValid e
      → val e ≡ none
      → ((j : ℕ) → found e j ≡ none)
      → IsChild c
      → IsJoined e c (fused e c)
  unfolding fused transfer_children take_val set_val put_val set_prefix prefix val children find
      IsValid
  fused-IsJoined (leaf p w) (leaf q none) valid empty bare child = record {
    valid = IsBytes-append p q valid child.1;
    joined = refl;
    same_val = empty;
    finds = bare;
  }
  fused-IsJoined (leaf p w) (leaf q (some x)) valid empty bare child = record {
    valid = IsBytes-append p q valid child.1;
    joined = refl;
    same_val = refl;
    finds = bare;
  }
  fused-IsJoined (leaf p w) (internal q none m cs) valid empty bare child = record {
    valid = (IsBytes-append p q valid child.1.0, child.1.1, child.1.2);
    joined = refl;
    same_val = empty;
    finds = λ j. refl;
  }
  fused-IsJoined (leaf p w) (internal q (some x) m cs) valid empty bare child = record {
    valid = (IsBytes-append p q valid child.1.0, child.1.1, child.1.2);
    joined = refl;
    same_val = refl;
    finds = λ j. refl;
  }
  fused-IsJoined (internal p w m' cs') (leaf q none) valid empty bare child = record {
    valid = (IsBytes-append p q valid.0 child.1, valid.1, valid.2);
    joined = refl;
    same_val = empty;
    finds = bare;
  }
  fused-IsJoined (internal p w m' cs') (leaf q (some x)) valid empty bare child = record {
    valid = (IsBytes-append p q valid.0 child.1, valid.1, valid.2);
    joined = refl;
    same_val = refl;
    finds = bare;
  }
  fused-IsJoined (internal p w m' cs') (internal q none m cs) valid empty bare child = record {
    valid = (IsBytes-append p q valid.0 child.1.0, child.1.1, child.1.2);
    joined = refl;
    same_val = empty;
    finds = λ j. refl;
  }
  fused-IsJoined (internal p w m' cs') (internal q (some x) m cs) valid empty bare child = record {
    valid = (IsBytes-append p q valid.0 child.1.0, child.1.1, child.1.2);
    joined = refl;
    same_val = refl;
    finds = λ j. refl;
  }

  -- A node without its only child.
  pub removed-bare :
      (n c emptied : Node A)
      → IsOnly n c
      → IsUpdate n (key c) none emptied
      → (j : ℕ) → found emptied j ≡ none
  removed-bare n c emptied only u j = elim (Bool-cases (key c == j)) [
    | inl here ↦ u.finds j ∙ rw here refl
    | inr there ↦ u.finds j ∙ rw (only j, there) refl
  ]

  -- A well-formed node with no value and one child is joined with it, and holds what it held.
  pub merge-holds :
      (n : Node A) (room : ℕ)
      → room ≤ 2 ^ 32
      → Fits room n
      → IsValid n
      → len_children n ≡ 1
      → has_val n ≡ false
      → Yields
          (λ m.
            IsValid m
            × Fits room m
            × ((q : List ℕ) × (prefix m ≡ prefix n ++ q))
            × ((j : List ℕ) → lookup m j ≡ lookup n j))
          (merge n)
  unfolding merge fused prefix
  merge-holds n room limit fit valid one no_val =
      let (c, child, only, pos) = IsOnly-IsChild n valid one in
      let lt = first-lt (prefix c) child.0 (prefix-IsBytes c child.1) in
      let self : (key c == key c) ≡ true = ground arith in
      let here : found n (key c) ≡ some c = only (key c) ∙ rw self refl in
      let empty = has_val-none n no_val in
      let child_fit = Fits-found fit (key c) c here in
      let size : length (prefix n) + length (prefix c) < 2 ^ 32 =
        omega (arith, Fits-prefix fit, Fits-prefix child_fit, limit) in
      rw pos (
        Yields-bind (remove_child-IsUpdate n (key c) c valid lt here) λ (removed, emptied) (is, u).
          let bare = removed-bare n c emptied only u in
          let join = fused-IsJoined emptied c u.valid (u.same_val ∙ empty) bare child in
          let joined : IsJoined n c (fused emptied c) = record {
            valid = join.valid;
            joined = join.joined ∙ ap (λ p. p ++ prefix c) u.same_prefix;
            same_val = join.same_val;
            finds = join.finds;
          } in
          rw (is, joined_prefix (prefix emptied) (prefix c) (rw u.same_prefix size))
            (yields (
              joined.valid,
              Fits-join n c (fused emptied c) room joined.joined joined.finds fit child_fit,
              (prefix c, joined.joined),
              joined-lookup n c (fused emptied c) empty child only joined,
            )))

  -- The same for the root, whose child is the new root.
  pub raise_child-holds :
      (n : Node A) (room : ℕ)
      → room ≤ 2 ^ 32
      → Fits room n
      → IsValid n
      → len_children n ≡ 1
      → has_val n ≡ false
      → Yields
          (λ m. (IsValid m × Fits room m) × ((j : List ℕ) → lookup m j ≡ lookup n j))
          (raise_child n)
  unfolding raise_child prefix
  raise_child-holds n room limit fit valid one no_val =
      let (c, child, only, pos) = IsOnly-IsChild n valid one in
      let lt = first-lt (prefix c) child.0 (prefix-IsBytes c child.1) in
      let self : (key c == key c) ≡ true = ground arith in
      let here : found n (key c) ≡ some c = only (key c) ∙ rw self refl in
      let empty = has_val-none n no_val in
      let join = raised-IsJoined n c valid child in
      let child_fit = Fits-found fit (key c) c here in
      let size : length (prefix n) + length (prefix c) < 2 ^ 32 =
        omega (arith, Fits-prefix fit, Fits-prefix child_fit, limit) in
      let whole : Node A = set_prefix c (prefix n ++ prefix c) in
      rw pos (
        Yields-bind (remove_child-IsUpdate n (key c) c valid lt here) λ (removed, emptied) (is, u).
          rw (is, u.same_prefix, joined_prefix (prefix n) (prefix c) size)
            (yields (
              (join.valid, Fits-join n c whole room join.joined join.finds fit child_fit),
              joined-lookup n c (set_prefix c (prefix n ++ prefix c)) empty child only join,
            )))
