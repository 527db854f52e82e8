-- ===== src/Trie/Remove/Correct.antt =====
-- `remove` and `get_mut` of algors-trie/src/trie.rs, as their callers see them.
use algors.Prelude.{
  ℕ, ◌+◌, ◌^◌, ◌≡◌, refl, ap, sym, ◌∙◌, subst, inl, inr, List, [], ◌∷◌, Option, none, some, arith,
  Outcome, done, ◌>>=◌, Yields, yields, Yields-bind, if◌then◌else◌, length, Bool-cases,
  Option-cases,
}
use algors.Trie.Bytes.{IsBytes}
use algors.Trie.Node.{Node, prefix, val, put_val, take_val, set_val}
use algors.Trie.Node.Valid.{IsValid}
use algors.Trie.Node.Fits.{Fits, Fits-same}
use algors.Trie.Lookup.{strip, same, same_iff, lookup, lookup?, lookup_lem}
use algors.Trie.Map.{TrieMap}
use algors.Trie.Map.Get.{IsTree, IsMap, lookup_map}
use algors.Trie.Map.Insert.{put_val-parts, put_val-IsValid, put_val-holds}
use algors.Trie.Map.Laws.{same_nil}
use algors.Trie.Remove.{Visited, plug, compress, remove, get_mut}
use algors.Trie.Remove.Placed.{IsPlaced, changed-IsPlaced, plug-Fits}
use algors.Trie.Remove.Trail.{IsTrail, IsFit, equal-IsFit, IsTrail-IsFit}
use algors.Trie.Remove.Focus.{IsFocus, root-IsFocus, IsFound, walk-IsFound}
use algors.Trie.Remove.Compress.{Rooted, compress-Rooted}

module _ {ℓ} {A : Type ℓ} where
  -- `f` is `g` but at `k`, where it is `o`.
  abbrev pub Differs : List ℕ → Option A → (List ℕ → Option A) → (List ℕ → Option A) → Type ℓ
  Differs k o g f = (j : List ℕ) → f j ≡ (if same k j then o else g j)

  -- Nothing changes where nothing is.
  absent-Differs : (k : List ℕ) (g : List ℕ → Option A) → g k ≡ none → Differs k none g g
  absent-Differs k g absent j = elim (Bool-cases (same k j)) [
    | inl here ↦ rw here (ap g (sym ((same_iff k j).0 here)) ∙ absent)
    | inr there ↦ rw there refl
  ]

  -- The empty key is held by no map.
  root-Differs :
      (b : ℕ) (k : List ℕ) (o : Option A) (n : Node A) (r : Option (Node A))
      → Differs (b ∷ k) o (lookup n) (lookup? r)
      → Differs (b ∷ k) o (lookup_map (record { root = some n })) (lookup_map (record { root = r }))
  unfolding same
  root-Differs b k o n r differs [] = refl
  root-Differs b k o n r differs (c ∷ j) = differs (c ∷ j)

  take_val-none : (n : Node A) → val n ≡ none → take_val n ≡ (none, n)
  unfolding take_val
  take_val-none n e = rw (take_val, e) refl

  take_val-some : (n : Node A) (x : A) → val n ≡ some x → take_val n ≡ (some x, put_val n none)
  unfolding take_val
  take_val-some n x e = rw (take_val, e) refl

  -- What `remove` of `k` gives and leaves.
  abbrev pub IsRemoved : TrieMap A → List ℕ → Option A × TrieMap A → Type ℓ
  IsRemoved t k (res, t') =
      (res ≡ lookup_map t k) × IsMap t' × Differs k none (lookup_map t) (lookup_map t')

  -- The end of `remove`, from what `take_val` gives.
  abbrev taken_end : Visited A → Option A × Node A → Outcome (Option A × TrieMap A)
  taken_end visited (res, taken) = elim res [
    | none ↦ done (none, record { root = some (plug taken visited) })
    | some x ↦ compress taken visited >>= λ root. done (some x, record { root = root })
  ]

  module _ (root : Node A) (b : ℕ) (k : List ℕ) (cur : Node A) (r : List ℕ) (visited : Visited A)
      (focus : IsFocus root (b ∷ k) cur r visited) (ends : strip (prefix cur) r ≡ some []) where
    end_value : lookup root (b ∷ k) ≡ val cur
    end_value = focus.value ∙ rw (lookup_lem cur r, ends) refl

    abbrev cur_with : Option A → Node A
    cur_with o = put_val cur o

    put-IsFit : (o : Option A) → IsFit cur (cur_with o)
    put-IsFit o =
        equal-IsFit cur (put_val cur o) (put_val-IsValid cur o focus.valid)
          ((put_val-parts cur o).0)

    put-IsTrail : (o : Option A) → IsTrail (cur_with o) visited
    put-IsTrail o = IsTrail-IsFit visited cur (put_val cur o) focus.trail (put-IsFit o)

    put-IsPlaced : (o : Option A) → Fits (2 ^ 32) root → IsPlaced (cur_with o) visited
    put-IsPlaced o whole =
        let (same_prefix, same_val, same_found) = put_val-parts cur o in
        changed-IsPlaced cur (put_val cur o) visited (focus.placed whole) λ room fit.
          Fits-same cur (put_val cur o) room same_prefix (λ c. ap (λ f. f c) same_found) fit

    -- The tree with another value at the end of the key.
    put-holds :
        (o : Option A)
        → IsValid (plug (cur_with o) visited)
          × Differs (b ∷ k) o (lookup root) (lookup (plug (cur_with o) visited))
    put-holds o =
        focus.change (put_val cur o) o (put-IsFit o) (put_val-holds cur r o focus.valid ends)

    end-IsRemoved :
        Fits (2 ^ 32) root
        → Yields
            (IsRemoved (record { root = some root }) (b ∷ k))
            (taken_end visited (take_val cur))
    end-IsRemoved whole = elim (Option-cases (val cur)) [
      | inl nothing ↦
          let absent : lookup cur r ≡ none = rw (lookup_lem cur r, ends) nothing in
          let (ok, differs) =
            focus.change cur none (equal-IsFit cur cur focus.valid refl)
              (absent-Differs r (lookup cur) absent) in
          subst
            (λ p. Yields (IsRemoved (record { root = some root }) (b ∷ k)) (taken_end visited p))
            (sym (take_val-none cur nothing))
            (yields {a = (none, record { root = some (plug cur visited) })} (
              sym (end_value ∙ nothing),
              (ok, plug-Fits visited cur focus.trail focus.valid (focus.placed whole)),
              root-Differs b k none root (some (plug cur visited)) differs,
            ))
      | inr (x, here) ↦
          let (ok, differs) = put-holds none in
          subst
            (λ p. Yields (IsRemoved (record { root = some root }) (b ∷ k)) (taken_end visited p))
            (sym (take_val-some cur x here))
            (Yields-bind
              (compress-Rooted visited (cur_with none) (put-IsTrail none)
                (put_val-IsValid cur none focus.valid) (put-IsPlaced none whole))
              λ root' rooted.
                yields {a = (some x, record { root = root' })}
                  (with_root x here differs root' rooted))
    ]
      where
        with_root :
            (x : A)
            → val cur ≡ some x
            → Differs (b ∷ k) none (lookup root) (lookup (plug (cur_with none) visited))
            → (root' : Option (Node A)) → Rooted (plug (cur_with none) visited) root'
            → IsRemoved (record { root = some root }) (b ∷ k) (some x, record { root = root' })
        with_root x here differs none rooted = (
          sym (end_value ∙ here),
          tt,
          root-Differs b k none root none λ j. sym (rooted j) ∙ differs j,
        )
        with_root x here differs (some m) (ok, same_lookup) = (
          sym (end_value ∙ here),
          ok,
          root-Differs b k none root (some m) λ j. same_lookup j ∙ differs j,
        )

  remove-root :
      (r : Option (Node A)) (b : ℕ) (k : List ℕ)
      → IsMap (record { root = r })
      → IsBytes (b ∷ k)
      → Yields (IsRemoved (record { root = r }) (b ∷ k)) (remove (record { root = r }) (b ∷ k))
  unfolding remove
  remove-root none b k valid bytes =
      yields (refl, tt, absent-Differs (b ∷ k) (lookup_map (record { root = none })) refl)
  remove-root (some n) b k valid bytes =
      Yields-bind
        (walk-IsFound (length (b ∷ k) + 2) n (b ∷ k) n (b ∷ k) [] (root-IsFocus n (b ∷ k) valid.0)
          bytes (omega arith))
        by_end
    where
      by_end :
          (end : Option (Node A × Visited A))
          → IsFound n (b ∷ k) end
          → Yields (IsRemoved (record { root = some n }) (b ∷ k)) (elim end [
            | none ↦ done (none, record { root = some n })
            | some (cur_node, visited) ↦ taken_end visited (take_val cur_node)
          ])
      by_end none absent = yields {a = (none, record { root = some n })} (
        sym absent,
        valid,
        root-Differs b k none n (some n) (absent-Differs (b ∷ k) (lookup n) absent),
      )
      by_end (some (cur, visited)) (r, focus, ends) =
          end-IsRemoved n b k cur r visited focus ends valid.1

  -- `remove` of a byte key on a well-formed map, no way down whose tree spells 2 ^ 32 bytes, ends, and returns the
  -- value that the map held under the key, if there was one. It leaves such a map, which holds nothing under the
  -- key, and under every other key what the map held before.
  pub remove-IsRemoved :
      (t : TrieMap A) (k : List ℕ) → IsMap t → IsBytes k → Yields (IsRemoved t k) (remove t k)
  unfolding remove
  remove-IsRemoved t [] valid bytes = yields {a = (none, t)} (refl, valid, same_nil t)
  remove-IsRemoved t (b ∷ k) valid bytes = remove-root t.root b k valid bytes

  -- What `get_mut` of `k` gives: nothing, or the value and a way to write another one.
  abbrev pub IsLent : TrieMap A → List ℕ → Option (A × (A → TrieMap A)) → Type ℓ
  IsLent t k none = lookup_map t k ≡ none
  IsLent t k (some (x, write)) =
      (lookup_map t k ≡ some x)
      × ((y : A) → IsTree (write y) × Differs k (some y) (lookup_map t) (lookup_map (write y)))

  get_mut-root :
      (r : Option (Node A)) (b : ℕ) (k : List ℕ)
      → IsTree (record { root = r })
      → IsBytes (b ∷ k)
      → Yields (IsLent (record { root = r }) (b ∷ k)) (get_mut (record { root = r }) (b ∷ k))
  unfolding get_mut set_val
  get_mut-root none b k valid bytes = yields {a = none} refl
  get_mut-root (some n) b k valid bytes =
      Yields-bind
        (walk-IsFound (length (b ∷ k) + 2) n (b ∷ k) n (b ∷ k) [] (root-IsFocus n (b ∷ k) valid)
          bytes (omega arith))
        λ end found. yields (by_end end found)
    where
      by_end :
          (end : Option (Node A × Visited A))
          → IsFound n (b ∷ k) end
          → IsLent
              (record { root = some n })
              (b ∷ k)
              (elim end [
                | none ↦ none
                | some (cur_node, visited) ↦ elim (val cur_node) [
                  | none ↦ none
                  | some x ↦
                      some (x, λ y. record { root = some (plug (set_val cur_node y) visited) })
                ]
              ])
      by_end none absent = absent
      by_end (some (cur, visited)) (r, focus, ends) = elim (Option-cases (val cur)) [
        | inl nothing ↦ rw nothing (end_value n b k cur r visited focus ends ∙ nothing)
        | inr (x, here) ↦ rw here (
          end_value n b k cur r visited focus ends ∙ here,
          λ y.
              let (ok, differs) = put-holds n b k cur r visited focus ends (some y) in
              (ok, root-Differs b k (some y) n (some (plug (set_val cur y) visited)) differs),
        )
      ]

  -- `get_mut` of a byte key on a map with a well-formed tree ends. If the map holds nothing under the key, it
  -- returns nothing. Else it returns the value, and a write through the reference leaves a well-formed tree that
  -- holds the new value under the key, and under every other key what the map held before.
  pub get_mut-IsLent :
      (t : TrieMap A) (k : List ℕ) → IsTree t → IsBytes k → Yields (IsLent t k) (get_mut t k)
  unfolding get_mut
  get_mut-IsLent t [] valid bytes = yields {a = none} refl
  get_mut-IsLent t (b ∷ k) valid bytes = get_mut-root t.root b k valid bytes
