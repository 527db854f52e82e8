-- ===== src/Trie/Remove/Compress.antt =====
-- `compress` in algors-trie/src/trie.rs: it ends, and the tree holds what it held.
use algors.Prelude.{
  ℕ, ◌^◌, ◌<◌, ◌≡◌, refl, sym, ◌∙◌, subst, inl, inr, List, [], ◌∷◌, Option, none, some, true, false,
  Bool, arith, done, ◌>>=◌, Yields, yields, Yields-mono, Yields-bind, Yields-if, ◌==◌, ◌&&◌, length,
  Bool-cases, not,
}
use algors.Trie.Bitmap.{child_pos_from_byte}
use algors.Trie.Keyed.{find}
use algors.Trie.Node.{
  Node, leaf, internal, nil, cons, prefix, has_val, children, len_children, set_child_by_pos,
  remove_child,
}
use algors.Trie.Node.Valid.{IsValid}
use algors.Trie.Node.Update.{found, get-found, IsUpdate, remove_child-IsUpdate}
use algors.Trie.Node.Fits.{Fits, Fits-update}
use algors.Trie.Lookup.{strip, after, lookup, lookup?, lookup_lem}
use algors.Trie.Remove.{Visited, plug, prune, compress_loop, compress_root, compress}
use algors.Trie.Remove.Trail.{
  IsTrail, IsFit, longer-IsFit, equal-IsFit, IsTrail-IsFit, IsFit-trans, above-IsUpdate, plug-same,
  update-same,
}
use algors.Trie.Remove.Placed.{Leaves-le, IsPlaced, changed-IsPlaced, above-IsPlaced, plug-Fits}
use algors.Trie.Remove.Merge.{len_children-length, has_val-none, merge-holds, raise_child-holds}

and-true : (a b : Bool) → (a && b) ≡ true → (a ≡ true) × (b ≡ true)
and-true true b e = (refl, e)
and-true false b e = cc

not-true : (b : Bool) → not b ≡ true → b ≡ false
not-true true e = cc
not-true false e = refl

module _ {ℓ} {A : Type ℓ} where
  -- `m` holds what `n` does, and may stand in its place.
  abbrev Keeps : Node A → Node A → Type ℓ
  Keeps n m =
      IsValid m
      × IsFit n m
      × ((j : List ℕ) → lookup m j ≡ lookup n j)
      × ((room : ℕ) → Fits room n → Fits room m)

  no_child : (m : Node A) → length (children m) ≡ 0 → (b : ℕ) → found m b ≡ none
  unfolding children find
  no_child (leaf p v) e b = refl
  no_child (internal p v m nil) e b = refl
  no_child (internal p v m (cons c cs)) e b = absurd (omega arith)

  pub self-IsUpdate :
      (n : Node A) (b : ℕ) (o : Option (Node A)) → IsValid n → found n b ≡ o → IsUpdate n b o n
  self-IsUpdate n b o valid here = record {
    valid = valid;
    same_prefix = refl;
    same_val = refl;
    finds = λ j. elim (Bool-cases (b == j)) [
      | inl e ↦
          let same_byte : b ≡ j = ground arith in rw e (subst (λ i. found n i ≡ o) same_byte here)
      | inr ne ↦ rw ne refl
    ];
  }

  -- A node with no child and no value holds nothing.
  bare-lookup :
      (n : Node A)
      → IsValid n
      → len_children n ≡ 0
      → has_val n ≡ false
      → (j : List ℕ) → lookup n j ≡ none
  bare-lookup n valid zero_children no_val j =
      rw (lookup_lem n j, has_val-none n no_val) (at (strip (prefix n) j))
    where
      at : (s : Option (List ℕ)) → after s none none (λ b r. lookup? (found n b) r) ≡ none
      at none = refl
      at (some []) = refl
      at (some (b ∷ r)) = rw (no_child n (sym (len_children-length n valid) ∙ zero_children) b) refl

  prune-Keeps :
      (parent c : Node A) (b : ℕ)
      → IsValid parent
      → b < 256
      → found parent b ≡ some c
      → IsValid c
      → Yields (Keeps parent) (prune parent (child_pos_from_byte b))
  unfolding prune
  prune-Keeps parent c b valid lt here ok = rw (get-found parent b c valid lt here) (
      Yields-if ((len_children c == 0) && not (has_val c))
        (λ bare. removal (and-true (len_children c == 0) (not (has_val c)) bare))
        (λ rest. yields (valid, equal-IsFit parent parent valid refl, (λ j. refl), λ room h. h)))
    where
      removal :
          ((len_children c == 0) ≡ true) × (not (has_val c) ≡ true)
          → Yields
              (Keeps parent)
              (remove_child parent (child_pos_from_byte b) >>= λ (removed, pruned). done pruned)
      removal (no_children, no_value) =
          Yields-bind (remove_child-IsUpdate parent b c valid lt here) λ (removed, pruned) (is, u).
            yields (
              u.valid,
              equal-IsFit parent pruned u.valid u.same_prefix,
              update-same parent b none (some c) pruned parent u
                  (self-IsUpdate parent b (some c) valid here)
                  (λ j. sym (bare-lookup c ok (ground arith) (not-true (has_val c) no_value) j)),
              λ room fit. Fits-update parent b none pruned room u fit λ d is. cc,
            )

  compress_loop-holds :
      (visited : Visited A) (cur : Node A)
      → IsTrail cur visited
      → IsValid cur
      → IsPlaced cur visited
      → Yields
          (λ root.
            (IsValid root × Fits (2 ^ 32) root)
            × ((j : List ℕ) → lookup root j ≡ lookup (plug cur visited) j))
          (compress_loop cur visited)
  unfolding compress_loop plug
  compress_loop-holds [] cur trail valid placed =
      yields ((valid, plug-Fits [] cur trail valid placed), λ j. refl)
  compress_loop-holds ((above, pos) ∷ visited) cur (b, d, at, lt, child, first, here, ok, up) valid
        placed =
      let u =
        above-IsUpdate above cur cur d b lt child first here ok (equal-IsFit cur cur valid refl) in
      let m = set_child_by_pos above (child_pos_from_byte b) cur in
      let up' = IsTrail-IsFit visited above m up (equal-IsFit above m u.valid u.same_prefix) in
      let self : (b == b) ≡ true = ground arith in
      let below : found m b ≡ some cur = u.finds b ∙ rw self refl in
      rw at (
        Yields-bind (prune-Keeps m cur b u.valid lt below valid) λ parent (ok', fit, same, keeps).
          let (room, room_fit, leaves) =
            changed-IsPlaced m parent visited (above-IsPlaced above cur m pos visited b u placed)
              keeps in
          let up'' = IsTrail-IsFit visited m parent up' fit in
          Yields-if ((len_children parent == 1) && not (has_val parent))
            (λ single.
              let (one, no_value) =
                and-true (len_children parent == 1) (not (has_val parent)) single in
              Yields-bind
                (merge-holds parent room (Leaves-le room visited leaves) room_fit ok' (ground arith)
                  (not-true (has_val parent) no_value))
                λ merged (valid', merged_fit, (q, longer), same').
                  let fit' = longer-IsFit parent merged q valid' longer in
                  let whole =
                    plug-same visited m merged up' u.valid (IsFit-trans m parent merged fit fit')
                      λ j. same' j ∙ same j in
                  Yields-mono (λ root (root_ok, holds). (root_ok, λ j. holds j ∙ whole.1 j))
                    (compress_loop-holds visited merged
                      (IsTrail-IsFit visited parent merged up'' fit') valid'
                      (room, merged_fit, leaves)))
            (λ more.
              let (whole_ok, whole_same) = plug-same visited m parent up' u.valid fit same in
              yields (
                (whole_ok, plug-Fits visited parent up'' ok' (room, room_fit, leaves)),
                whole_same,
              )))

  -- What the optional root holds.
  abbrev pub Rooted : Node A → Option (Node A) → Type ℓ
  Rooted n none = (j : List ℕ) → lookup n j ≡ none
  Rooted n (some m) = (IsValid m × Fits (2 ^ 32) m) × ((j : List ℕ) → lookup m j ≡ lookup n j)

  compress_root-Rooted :
      (n : Node A) → IsValid n → Fits (2 ^ 32) n → Yields (Rooted n) (compress_root n)
  unfolding compress_root prefix
  compress_root-Rooted n valid fit =
      Yields-if (has_val n) (λ valued. yields {a = some n} ((valid, fit), λ j. refl))
        λ no_value.
          Yields-if (len_children n == 0)
            (λ none_left. yields {a = none} (bare-lookup n valid (ground arith) no_value))
            λ some_left.
              Yields-if (len_children n == 1)
                (λ one.
                  Yields-bind
                    (raise_child-holds n (2 ^ 32) (omega arith) fit valid (ground arith) no_value)
                    λ m holds. yields {a = some m} holds)
                λ many. yields {a = some n} ((valid, fit), λ j. refl)

  -- `compress` of a well-formed node below the visited ones ends with a well-formed tree, or none, that
  -- holds what the tree held.
  pub compress-Rooted :
      (visited : Visited A) (cur : Node A)
      → IsTrail cur visited
      → IsValid cur
      → IsPlaced cur visited
      → Yields (Rooted (plug cur visited)) (compress cur visited)
  unfolding compress
  compress-Rooted visited cur trail valid placed =
      Yields-bind (compress_loop-holds visited cur trail valid placed) λ root ((ok, fit), holds).
        Yields-mono (rooted_trans root holds) (compress_root-Rooted root ok fit)
    where
      rooted_trans :
          (root : Node A)
          → ((j : List ℕ) → lookup root j ≡ lookup (plug cur visited) j)
          → (r : Option (Node A)) → Rooted root r
          → Rooted (plug cur visited) r
      rooted_trans root holds none rooted = λ j. sym (holds j) ∙ rooted j
      rooted_trans root holds (some m) (ok, same) = (ok, λ j. same j ∙ holds j)
