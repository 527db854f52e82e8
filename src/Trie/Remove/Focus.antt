-- ===== src/Trie/Remove/Focus.antt =====
-- The loop of `remove` and of `get_mut` in algors-trie/src/trie.rs: the node where the key ends, and what a
-- change of the value there makes of the whole tree.
use algors.Prelude.{
  ℕ, zero, suc, ◌+◌, ◌^◌, ◌<◌, ◌≡◌, refl, ap, sym, ◌∙◌, subst, inl, inr, List, [], ◌∷◌, Option,
  none, some, true, false, arith, done, ◌>>=◌, Yields, yields, or_panic, ltb, ◌==◌, if◌then◌else◌,
  length, drop, length-drop, min, Bool-cases, Option-cases,
}
use algors.Trie.Bytes.{IsBytes, IsBytes-drop, common, common-le}
use algors.Trie.Bitmap.{child_pos_from_byte}
use algors.Trie.Lcp.Correct.{lcp-common}
use algors.Trie.Node.{Node, prefix, child_exists, get_child_by_pos, set_child_by_pos}
use algors.Trie.Node.Valid.{IsValid}
use algors.Trie.Node.Update.{found, found-IsChild, found-key, exists-found, get-found, IsChild}
use algors.Trie.Node.Fits.{Fits}
use algors.Trie.Lookup.{strip, strip_lem, same, lookup, lookup?, lookup_lem}
use algors.Trie.Map.{head_byte}
use algors.Trie.Map.Get.{prefix-IsBytes}
use algors.Trie.Map.Insert.{update-holds}
use algors.Trie.Remove.{Visited, walk, plug}
use algors.Trie.Remove.Trail.{IsTrail, IsFit, equal-IsFit, above-IsUpdate}
use algors.Trie.Remove.Placed.{IsPlaced, root-IsPlaced, child-IsPlaced}

module _ {ℓ} {A : Type ℓ} where
  -- The key `k` in the tree is the rest `r` of it in `cur`.
  pub record IsFocus (root : Node A) (k : List ℕ) (cur : Node A) (r : List ℕ) (visited : Visited A)
      : Type ℓ where
    pub trail : IsTrail cur visited
    pub valid : IsValid cur
    pub placed : Fits (2 ^ 32) root → IsPlaced cur visited
    pub value : lookup root k ≡ lookup cur r
    pub change :
        (n' : Node A) (o : Option A)
        → IsFit cur n'
        → ((j : List ℕ) → lookup n' j ≡ (if same r j then o else lookup cur j))
        → IsValid (plug n' visited)
          × ((j : List ℕ) → lookup (plug n' visited) j ≡ (if same k j then o else lookup root j))

  pub root-IsFocus : (root : Node A) (k : List ℕ) → IsValid root → IsFocus root k root k []
  unfolding plug
  root-IsFocus root k valid = record {
    trail = tt;
    valid = valid;
    placed = λ fit. root-IsPlaced root fit;
    value = refl;
    change = λ n' o fit eq. (fit.0, eq);
  }

  -- One child further down.
  child-IsFocus :
      (root : Node A) (k : List ℕ) (cur : Node A) (r : List ℕ) (visited : Visited A) (b : ℕ)
      (s : List ℕ) (c : Node A)
      → IsFocus root k cur r visited
      → strip (prefix cur) r ≡ some (b ∷ s)
      → b < 256
      → found cur b ≡ some c
      → IsFocus root k c (b ∷ s) ((cur, child_pos_from_byte b) ∷ visited)
  unfolding plug
  child-IsFocus root k cur r visited b s c focus e lt here =
      let child = found-IsChild cur b c focus.valid here in
      let first = found-key cur b c here in
      record {
        trail = (b, c, refl, lt, child, first, here, focus.valid, focus.trail);
        valid = child.1;
        placed =
            λ fit. child-IsPlaced cur visited b (child_pos_from_byte b) c (focus.placed fit) here;
        value = focus.value ∙ rw (lookup_lem cur r, e, here) refl;
        change = λ n' o fit eq.
            let u = above-IsUpdate cur c n' c b lt child first here focus.valid fit in
            let m = set_child_by_pos cur (child_pos_from_byte b) n' in
            focus.change m o (equal-IsFit cur m u.valid u.same_prefix) (
              update-holds cur r o focus.valid b s (some n') m e u (
                subst
                  (λ f. (j : List ℕ) → lookup n' j ≡ (if same (b ∷ s) j then o else lookup? f j))
                  (sym here) eq));
      }

  -- Where the walk ends: nowhere, as the tree holds nothing under the key, or at the node of the key.
  abbrev pub IsFound : Node A → List ℕ → Option (Node A × Visited A) → Type ℓ
  IsFound root k none = lookup root k ≡ none
  IsFound root k (some (cur, visited)) =
      (r : List ℕ) × IsFocus root k cur r visited × (strip (prefix cur) r ≡ some [])

  module _ (root : Node A) (k : List ℕ) (cur : Node A) (r : List ℕ) (visited : Visited A)
      (focus : IsFocus root k cur r visited) where
    walk_below :
        (fuel b : ℕ) (s : List ℕ)
        → strip (prefix cur) r ≡ some (b ∷ s)
        → b < 256
        → ((c : Node A)
            → IsChild c
            → IsFocus root k c (b ∷ s) ((cur, child_pos_from_byte b) ∷ visited)
            → Yields
                (IsFound root k)
                (walk fuel c (b ∷ s) ((cur, child_pos_from_byte b) ∷ visited)))
        → Yields (IsFound root k) (
            if child_exists cur (child_pos_from_byte b)
            then (get_child_by_pos cur (child_pos_from_byte b) >>= λ child. or_panic child >>= λ c.
                walk fuel c (b ∷ s) ((cur, child_pos_from_byte b) ∷ visited))
            else done none)
    walk_below fuel b s e lt down = elim (Option-cases (found cur b)) [
      | inl missing ↦
          rw (exists-found cur b focus.valid lt, missing)
            (yields (focus.value ∙ rw (lookup_lem cur r, e, missing) refl))
      | inr (c, here) ↦
          rw (exists-found cur b focus.valid lt, here, get-found cur b c focus.valid lt here)
            (down c (found-IsChild cur b c focus.valid here)
              (child-IsFocus root k cur r visited b s c focus e lt here))
    ]

    -- The key leaves the prefix of the node.
    walk_off :
        (fuel : ℕ)
        → IsBytes r
        → ltb (common (prefix cur) r) (length (prefix cur)) ≡ true
        → Yields (IsFound root k) (walk (suc fuel) cur r visited)
    unfolding walk
    walk_off fuel bytes short =
        let other : (common (prefix cur) r == length (prefix cur)) ≡ false = ground arith in
        rw (lcp-common (prefix cur) r (prefix-IsBytes cur focus.valid) bytes, short)
          (yields (focus.value ∙ rw (lookup_lem cur r, strip_lem (prefix cur) r, other) refl))

    -- The whole prefix starts the key, and `left` goes on.
    walk_on :
        (fuel : ℕ) (left : List ℕ)
        → IsBytes r
        → IsBytes left
        → common (prefix cur) r ≡ length (prefix cur)
        → drop (length (prefix cur)) r ≡ left
        → ((b : ℕ) (c : Node A)
            → IsChild c
            → IsFocus root k c left ((cur, child_pos_from_byte b) ∷ visited)
            → Yields (IsFound root k) (walk fuel c left ((cur, child_pos_from_byte b) ∷ visited)))
        → Yields (IsFound root k) (walk (suc fuel) cur r visited)
    unfolding walk head_byte
    walk_on fuel [] bytes left_bytes whole left down =
        let size : length r ≡ length (prefix cur) = omega (
          arith,
          whole,
          common-le (prefix cur) r,
          length-drop (length (prefix cur)) r,
          ap length left,
        ) in
        let short : ltb (length (prefix cur)) (length (prefix cur)) ≡ false = ground arith in
        let equal : (length (prefix cur) == length (prefix cur)) ≡ true = ground arith in
        let ends : strip (prefix cur) r ≡ some [] =
          rw (strip_lem (prefix cur) r, whole, left, equal) refl in
        rw
          (
            lcp-common (prefix cur) r (prefix-IsBytes cur focus.valid) bytes,
            whole,
            size,
            short,
            equal,
          )
          (yields (r, focus, ends))
    walk_on fuel (b ∷ s) bytes left_bytes whole left down =
        let size : length r ≡ suc (length (prefix cur) + length s) = omega (
          arith,
          whole,
          common-le (prefix cur) r,
          length-drop (length (prefix cur)) r,
          ap length left,
        ) in
        let short : ltb (length (prefix cur)) (length (prefix cur)) ≡ false = ground arith in
        let equal : (length (prefix cur) == length (prefix cur)) ≡ true = ground arith in
        let more : (length (prefix cur) == suc (length (prefix cur) + length s)) ≡ false =
          ground arith in
        let goes_on : strip (prefix cur) r ≡ some (b ∷ s) =
          rw (strip_lem (prefix cur) r, whole, left, equal) refl in
        rw
          (
            lcp-common (prefix cur) r (prefix-IsBytes cur focus.valid) bytes,
            whole,
            left,
            size,
            short,
            more,
          )
          (walk_below fuel b s goes_on left_bytes.0 (down b))

  pub walk-IsFound :
      (fuel : ℕ) (root : Node A) (k : List ℕ) (cur : Node A) (r : List ℕ) (visited : Visited A)
      → IsFocus root k cur r visited
      → IsBytes r
      → length r + 1 < fuel + min 1 (length (prefix cur))
      → Yields (IsFound root k) (walk fuel cur r visited)
  walk-IsFound zero root k cur r visited focus bytes f = absurd (omega arith)
  walk-IsFound (suc fuel) root k cur r visited focus bytes f =
      elim (Bool-cases (ltb (common (prefix cur) r) (length (prefix cur)))) [
        | inl short ↦ walk_off root k cur r visited focus fuel bytes short
        | inr whole ↦
            let e : common (prefix cur) r ≡ length (prefix cur) =
              ground (arith, common-le (prefix cur) r) in
            let left = drop (length (prefix cur)) r in
            let left_bytes = IsBytes-drop (length (prefix cur)) r bytes in
            walk_on root k cur r visited focus fuel left bytes left_bytes e refl λ b c child focus'.
              walk-IsFound fuel root k c left ((cur, child_pos_from_byte b) ∷ visited) focus'
                left_bytes
                (omega
                  (arith, length-drop (length (prefix cur)) r, common-le (prefix cur) r, child.0))
      ]
