-- ===== src/Trie/Remove/PrefixFocus.antt =====
-- The loop of `remove_prefix` in algors-trie/src/trie.rs: the node where the prefix ends, and what the removal
-- of that node makes of the whole tree.
use algors.Prelude.{
  ℕ, zero, suc, ◌+◌, ◌^◌, ◌<◌, ◌≡◌, ◌≢◌, refl, ap, sym, subst, inl, inr, List, [], ◌∷◌, Option,
  none, some, true, false, arith, done, ◌>>=◌, Yields, yields, or_panic, ltb, ◌==◌, if◌then◌else◌,
  length, drop, length-drop, min, Bool-cases, Option-cases,
}
use algors.Trie.Bytes.{IsBytes, IsBytes-drop, common, common-le}
use algors.Trie.Bitmap.{child_pos_from_byte}
use algors.Trie.Lcp.Correct.{lcp-common}
use algors.Trie.Node.{Node, prefix, child_exists, get_child_by_pos, set_child_by_pos}
use algors.Trie.Node.Valid.{IsValid}
use algors.Trie.Node.Update.{found, found-IsChild, found-key, exists-found, get-found, IsChild}
use algors.Trie.Node.Fits.{Fits}
use algors.Trie.Lookup.{strip, strip_lem, lookup, lookup?, lookup_lem}
use algors.Trie.Map.{head_byte}
use algors.Trie.Map.Get.{prefix-IsBytes}
use algors.Trie.Remove.{Visited, walk_prefix, plug}
use algors.Trie.Remove.Trail.{IsTrail, IsFit, equal-IsFit, above-IsUpdate}
use algors.Trie.Remove.Placed.{IsPlaced, root-IsPlaced, child-IsPlaced}
use algors.Trie.Remove.Compress.{self-IsUpdate}
use algors.Trie.Remove.Starts.{starts, parted-strip, Cuts, all-Cuts, update-Cuts}

module _ {ℓ} {A : Type ℓ} where
  -- A cut at the rest `r` of the prefix `k` in `cur` is a cut at `k` in the tree.
  pub record IsCutFocus (root : Node A) (k : List ℕ) (cur : Node A) (r : List ℕ)
      (visited : Visited A) : Type ℓ where
    pub trail : IsTrail cur visited
    pub valid : IsValid cur
    pub placed : IsPlaced cur visited
    pub change :
        (n' : Node A)
        → IsFit cur n'
        → Cuts r (lookup cur) (lookup n')
        → IsValid (plug n' visited) × Cuts k (lookup root) (lookup (plug n' visited))
    -- What is the same in the current node is the same in the tree.
    pub kept : Cuts r (lookup cur) (lookup cur) → Cuts k (lookup root) (lookup root)

  -- The current node is a child of the nearest node above, or the root.
  abbrev pub Origin : Node A → List ℕ → Node A → List ℕ → Visited A → Type ℓ
  Origin root k cur r [] = (cur ≡ root) × (r ≡ k)
  Origin root k cur r ((parent, pos) ∷ visited) =
      (b : ℕ) × (s : List ℕ) × (r' : List ℕ) × (r ≡ b ∷ s)
      × (pos ≡ child_pos_from_byte b)
      × (b < 256)
      × IsCutFocus root k parent r' visited
      × (strip (prefix parent) r' ≡ some (b ∷ s))
      × (found parent b ≡ some cur)

  pub root-IsCutFocus :
      (root : Node A) (k : List ℕ) → IsValid root → Fits (2 ^ 32) root → IsCutFocus root k root k []
  unfolding plug
  root-IsCutFocus root k valid fit = record {
    trail = tt;
    valid = valid;
    placed = root-IsPlaced root fit;
    change = λ n' fit eq. (fit.0, eq);
    kept = λ eq. eq;
  }

  child-IsCutFocus :
      (root : Node A) (k : List ℕ) (cur : Node A) (r : List ℕ) (visited : Visited A) (b : ℕ)
      (s : List ℕ) (c : Node A)
      → IsCutFocus root k cur r visited
      → strip (prefix cur) r ≡ some (b ∷ s)
      → b < 256
      → found cur b ≡ some c
      → IsCutFocus root k c (b ∷ s) ((cur, child_pos_from_byte b) ∷ visited)
  unfolding plug
  child-IsCutFocus root k cur r visited b s c focus e lt here =
      let child = found-IsChild cur b c focus.valid here in
      let first = found-key cur b c here in
      record {
        trail = (b, c, refl, lt, child, first, here, focus.valid, focus.trail);
        valid = child.1;
        placed = child-IsPlaced cur visited b (child_pos_from_byte b) c focus.placed here;
        change = λ n' fit eq.
            let u = above-IsUpdate cur c n' c b lt child first here focus.valid fit in
            let m = set_child_by_pos cur (child_pos_from_byte b) n' in
            focus.change m (equal-IsFit cur m u.valid u.same_prefix) (
              update-Cuts cur r b s (some n') m e u
                (subst (λ f. Cuts (b ∷ s) (lookup? f) (lookup n')) (sym here) eq));
        kept = λ eq. focus.kept (
            update-Cuts cur r b s (some c) cur e (self-IsUpdate cur b (some c) focus.valid here)
              (subst (λ f. Cuts (b ∷ s) (lookup? f) (lookup c)) (sym here) eq));
      }

  -- Where the loop ends: nowhere, as nothing starts with the prefix; in the root, whose prefix starts with it;
  -- or in a child whose prefix starts with the rest of it.
  abbrev pub IsPrefixEnd : Node A → List ℕ → Option (Visited A) → Type ℓ
  IsPrefixEnd root k none = Cuts k (lookup root) (lookup root)
  IsPrefixEnd root k (some []) = Cuts k (lookup root) (λ j. none)
  IsPrefixEnd root k (some ((parent, pos) ∷ visited)) =
      (b : ℕ) × (s : List ℕ) × (r : List ℕ) × (c : Node A) × (pos ≡ child_pos_from_byte b)
      × (b < 256)
      × IsCutFocus root k parent r visited
      × (strip (prefix parent) r ≡ some (b ∷ s))
      × (found parent b ≡ some c)
      × (common (prefix c) (b ∷ s) ≡ length (b ∷ s))

  end_here :
      (root : Node A) (k : List ℕ) (cur : Node A) (r : List ℕ) (visited : Visited A)
      → Origin root k cur r visited
      → common (prefix cur) r ≡ length r
      → IsPrefixEnd root k (some visited)
  end_here root k cur r [] (same_node, same_rest) e =
      all-Cuts root k (rw (same_node, same_rest) at e)
  end_here root k cur r ((parent, pos) ∷ visited)
        (b, s, r', same_rest, at, lt, focus, goes_on, here) e =
      (b, s, r', cur, at, lt, focus, goes_on, here, rw same_rest at e)

  -- The prefix parts from that of the node.
  parted-Cuts :
      (n : Node A) (r : List ℕ)
      → common (prefix n) r ≢ length (prefix n)
      → common (prefix n) r ≢ length r
      → Cuts r (lookup n) (lookup n)
  parted-Cuts n r e f j = elim (Bool-cases (starts r j)) [
    | inl both ↦ rw (both, lookup_lem n j, parted-strip (prefix n) r j e f both) refl
    | inr other ↦ rw other refl
  ]

  -- No child goes on with the next byte.
  missing-Cuts :
      (n : Node A) (r : List ℕ) (b : ℕ) (s : List ℕ)
      → IsValid n
      → strip (prefix n) r ≡ some (b ∷ s)
      → found n b ≡ none
      → Cuts r (lookup n) (lookup n)
  missing-Cuts n r b s valid e missing =
      update-Cuts n r b s none n e (self-IsUpdate n b none valid missing) λ j.
        rw missing (elim (Bool-cases (starts (b ∷ s) j)) [ inl t ↦ rw t refl | inr f ↦ rw f refl ])

  module _ (root : Node A) (k : List ℕ) (cur : Node A) (r : List ℕ) (visited : Visited A)
      (focus : IsCutFocus root k cur r visited) where
    prefix_below :
        (fuel b : ℕ) (s : List ℕ)
        → strip (prefix cur) r ≡ some (b ∷ s)
        → b < 256
        → ((c : Node A)
            → IsChild c
            → IsCutFocus root k c (b ∷ s) ((cur, child_pos_from_byte b) ∷ visited)
            → Origin root k c (b ∷ s) ((cur, child_pos_from_byte b) ∷ visited)
            → Yields
                (IsPrefixEnd root k)
                (walk_prefix fuel c (b ∷ s) ((cur, child_pos_from_byte b) ∷ visited)))
        → Yields (IsPrefixEnd root k) (
            if child_exists cur (child_pos_from_byte b)
            then (get_child_by_pos cur (child_pos_from_byte b) >>= λ child. or_panic child >>= λ c.
                walk_prefix fuel c (b ∷ s) ((cur, child_pos_from_byte b) ∷ visited))
            else done none)
    prefix_below fuel b s e lt down = elim (Option-cases (found cur b)) [
      | inl missing ↦
          rw (exists-found cur b focus.valid lt, missing)
            (yields {a = none} (focus.kept (missing-Cuts cur r b s focus.valid e missing)))
      | inr (c, here) ↦
          rw (exists-found cur b focus.valid lt, here, get-found cur b c focus.valid lt here)
            (down c (found-IsChild cur b c focus.valid here)
              (child-IsCutFocus root k cur r visited b s c focus e lt here)
              (b, s, r, refl, refl, lt, focus, e, here))
    ]

    prefix_on :
        (fuel : ℕ) (left : List ℕ)
        → IsBytes r
        → IsBytes left
        → common (prefix cur) r ≡ length (prefix cur)
        → common (prefix cur) r ≢ length r
        → drop (length (prefix cur)) r ≡ left
        → ((b : ℕ) (c : Node A)
            → IsChild c
            → IsCutFocus root k c left ((cur, child_pos_from_byte b) ∷ visited)
            → Origin root k c left ((cur, child_pos_from_byte b) ∷ visited)
            → Yields
                (IsPrefixEnd root k)
                (walk_prefix fuel c left ((cur, child_pos_from_byte b) ∷ visited)))
        → Yields (IsPrefixEnd root k) (walk_prefix (suc fuel) cur r visited)
    unfolding walk_prefix head_byte
    prefix_on fuel [] bytes left_bytes whole more left down = absurd (
        more (
          omega (
            arith,
            whole,
            common-le (prefix cur) r,
            length-drop (length (prefix cur)) r,
            ap length left,
          )))
    prefix_on fuel (b ∷ s) bytes left_bytes whole more left down =
        let size : length r ≡ suc (length (prefix cur) + length s) = omega (
          arith,
          whole,
          common-le (prefix cur) r,
          length-drop (length (prefix cur)) r,
          ap length left,
        ) in
        let short : ltb (length (prefix cur)) (length (prefix cur)) ≡ false = ground arith in
        let equal : (length (prefix cur) == length (prefix cur)) ≡ true = ground arith in
        let unequal : (length (prefix cur) == suc (length (prefix cur) + length s)) ≡ false =
          ground arith in
        let goes_on : strip (prefix cur) r ≡ some (b ∷ s) =
          rw (strip_lem (prefix cur) r, whole, left, equal) refl in
        rw
          (
            lcp-common (prefix cur) r (prefix-IsBytes cur focus.valid) bytes,
            whole,
            left,
            size,
            short,
            unequal,
          )
          (prefix_below fuel b s goes_on left_bytes.0 (down b))

    prefix_off :
        (fuel : ℕ)
        → IsBytes r
        → common (prefix cur) r ≢ length r
        → ltb (common (prefix cur) r) (length (prefix cur)) ≡ true
        → Yields (IsPrefixEnd root k) (walk_prefix (suc fuel) cur r visited)
    unfolding walk_prefix
    prefix_off fuel bytes more short =
        let unequal : (common (prefix cur) r == length r) ≡ false = ground arith in
        rw (lcp-common (prefix cur) r (prefix-IsBytes cur focus.valid) bytes, short, unequal)
          (yields {a = none} (focus.kept (parted-Cuts cur r (ground arith) more)))

    prefix_end :
        (fuel : ℕ)
        → IsBytes r
        → Origin root k cur r visited
        → (common (prefix cur) r == length r) ≡ true
        → Yields (IsPrefixEnd root k) (walk_prefix (suc fuel) cur r visited)
    unfolding walk_prefix
    prefix_end fuel bytes origin ends =
        rw (lcp-common (prefix cur) r (prefix-IsBytes cur focus.valid) bytes, ends)
          (yields {a = some visited} (end_here root k cur r visited origin (ground arith)))

  pub walk_prefix-IsPrefixEnd :
      (fuel : ℕ) (root : Node A) (k : List ℕ) (cur : Node A) (r : List ℕ) (visited : Visited A)
      → IsCutFocus root k cur r visited
      → Origin root k cur r visited
      → IsBytes r
      → length r + 1 < fuel + min 1 (length (prefix cur))
      → Yields (IsPrefixEnd root k) (walk_prefix fuel cur r visited)
  walk_prefix-IsPrefixEnd zero root k cur r visited focus origin bytes f = absurd (omega arith)
  walk_prefix-IsPrefixEnd (suc fuel) root k cur r visited focus origin bytes f =
      elim (Bool-cases (common (prefix cur) r == length r)) [
        | inl ends ↦ prefix_end root k cur r visited focus fuel bytes origin ends
        | inr more ↦ elim (Bool-cases (ltb (common (prefix cur) r) (length (prefix cur)))) [
          | inl short ↦ prefix_off root k cur r visited focus fuel bytes (ground arith) short
          | inr whole ↦
              let e : common (prefix cur) r ≡ length (prefix cur) =
                ground (arith, common-le (prefix cur) r) in
              let left = drop (length (prefix cur)) r in
              let left_bytes = IsBytes-drop (length (prefix cur)) r bytes in
              prefix_on root k cur r visited focus fuel left bytes left_bytes e (ground arith) refl
                λ b c child focus' origin'.
                  walk_prefix-IsPrefixEnd fuel root k c left
                    ((cur, child_pos_from_byte b) ∷ visited) focus' origin' left_bytes
                    (omega (
                      arith,
                      length-drop (length (prefix cur)) r,
                      common-le (prefix cur) r,
                      child.0,
                    ))
        ]
      ]
