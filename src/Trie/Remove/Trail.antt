-- ===== src/Trie/Remove/Trail.antt =====
-- The nodes above the current one in algors-trie/src/trie.rs, and what a change of it makes of the tree.
use algors.Prelude.{
  ℕ, ◌<◌, ◌≡◌, refl, ap, sym, ◌∙◌, inl, inr, List, [], ◌∷◌, ◌++◌, Option, none, some, arith, ◌==◌,
  length-append, get_or, get_or-append_left, Bool-cases,
}
use algors.Trie.Bitmap.{child_pos_from_byte}
use algors.Trie.Node.{Node, prefix, val, set_child_by_pos}
use algors.Trie.Node.Valid.{key, IsValid}
use algors.Trie.Node.Update.{found, IsChild, IsUpdate, set_child-at}
use algors.Trie.Lookup.{strip, after, lookup, lookup?, lookup_lem}
use algors.Trie.Remove.{Visited, plug}

module _ {ℓ} {A : Type ℓ} where
  -- `n` stands below the visited nodes: in the nearest one, at the position of its first byte.
  abbrev pub IsTrail : Node A → Visited A → Type ℓ
  IsTrail n [] = Unit {ℓ}
  IsTrail n ((above, pos) ∷ visited) =
      (b : ℕ) × (d : Node A) × (pos ≡ child_pos_from_byte b)
      × (b < 256)
      × IsChild n
      × (key n ≡ b)
      × (found above b ≡ some d)
      × IsValid above
      × IsTrail above visited

  -- `n'` may stand wherever `n` does.
  abbrev pub IsFit : Node A → Node A → Type 0
  IsFit n n' = IsValid n' × (IsChild n → IsChild n' × (key n' ≡ key n))

  -- The prefix may get longer at its end.
  pub longer-IsFit :
      (n n' : Node A) (q : List ℕ) → IsValid n' → prefix n' ≡ prefix n ++ q → IsFit n n'
  unfolding prefix
  longer-IsFit n n' q ok e = (
    ok,
    λ (pos, valid). (
      (rw e (omega (arith, length-append (prefix n) q)), ok),
      rw e (get_or-append_left (prefix n) q 0 0 pos),
    ),
  )

  pub equal-IsFit : (n n' : Node A) → IsValid n' → prefix n' ≡ prefix n → IsFit n n'
  unfolding prefix
  equal-IsFit n n' ok e = (ok, λ (pos, valid). ((rw e pos, ok), ap (λ q. get_or q 0 0) e))

  pub IsFit-trans : (n m l : Node A) → IsFit n m → IsFit m l → IsFit n l
  IsFit-trans n m l f g = (
    g.0,
    λ child. let (child', e) = f.1 child in let (child'', e') = g.1 child' in (child'', e' ∙ e),
  )

  pub IsTrail-IsFit :
      (visited : Visited A) (n n' : Node A) → IsTrail n visited → IsFit n n' → IsTrail n' visited
  IsTrail-IsFit [] n n' trail fit = tt
  IsTrail-IsFit ((above, pos) ∷ visited) n n' (b, d, at, lt, child, first, here, valid, up) fit =
      let (child', first') = fit.1 child in (b, d, at, lt, child', first' ∙ first, here, valid, up)

  -- Nodes that differ in one child, under which the same is found.
  pub update-same :
      (n : Node A) (b : ℕ) (o o' : Option (Node A)) (m m' : Node A)
      → IsUpdate n b o m
      → IsUpdate n b o' m'
      → ((j : List ℕ) → lookup? o j ≡ lookup? o' j)
      → (j : List ℕ) → lookup m j ≡ lookup m' j
  update-same n b o o' m m' u u' eq j =
      rw (lookup_lem m j, lookup_lem m' j, u.same_prefix, u'.same_prefix, u.same_val, u'.same_val)
        (at (strip (prefix n) j))
    where
      at :
          (s : Option (List ℕ))
          → after s none (val n) (λ c t. lookup? (found m c) t)
            ≡ after s none (val n) (λ c t. lookup? (found m' c) t)
      at none = refl
      at (some []) = refl
      at (some (c ∷ t)) = elim (Bool-cases (b == c)) [
        | inl here ↦ rw (u.finds c, u'.finds c, here) (eq (c ∷ t))
        | inr there ↦ rw (u.finds c, u'.finds c, there)
      ]

  -- The node above, with the child written back.
  pub above-IsUpdate :
      (above n n' d : Node A) (b : ℕ)
      → b < 256
      → IsChild n
      → key n ≡ b
      → found above b ≡ some d
      → IsValid above
      → IsFit n n'
      → IsUpdate above b (some n') (set_child_by_pos above (child_pos_from_byte b) n')
  above-IsUpdate above n n' d b lt child first here valid fit =
      let (child', first') = fit.1 child in
      set_child-at above n' d b valid child' (first' ∙ first) lt here

  -- A change that keeps what is found below the visited nodes keeps what is found in the tree.
  pub plug-same :
      (visited : Visited A) (n n' : Node A)
      → IsTrail n visited
      → IsValid n
      → IsFit n n'
      → ((j : List ℕ) → lookup n' j ≡ lookup n j)
      → IsValid (plug n' visited)
        × ((j : List ℕ) → lookup (plug n' visited) j ≡ lookup (plug n visited) j)
  unfolding plug
  plug-same [] n n' trail valid fit eq = (fit.0, eq)
  plug-same ((above, pos) ∷ visited) n n' (b, d, at, lt, child, first, here, ok, up) valid fit eq =
      let u = above-IsUpdate above n n d b lt child first here ok (equal-IsFit n n valid refl) in
      let u' = above-IsUpdate above n n' d b lt child first here ok fit in
      let m = set_child_by_pos above (child_pos_from_byte b) n in
      let m' = set_child_by_pos above (child_pos_from_byte b) n' in
      rw at (
        plug-same visited m m'
          (IsTrail-IsFit visited above m up (equal-IsFit above m u.valid u.same_prefix)) u.valid
          (equal-IsFit m m' u'.valid (u'.same_prefix ∙ sym u.same_prefix))
          (update-same above b (some n') (some n) m' m u' u eq))
