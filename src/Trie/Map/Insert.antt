-- ===== src/Trie/Map/Insert.antt =====
-- `insert` of algors-trie/src/trie.rs: the rounds that do not split a node.
use algors.Prelude.{
  ℕ, ◌-◌, ◌^◌, ◌≤◌, ◌<◌, ◌≡◌, length, refl, ap, subst, ◌∙◌, inl, inr, List, [], ◌∷◌, Option, none,
  some, true, false, arith, Outcome, done, ◌>>=◌, Yields, yields, Yields-mono, Yields-bind, ◌==◌,
  if◌then◌else◌, take, Bool-cases, Option-cases, or_panic,
}
use mathlib.Core.Option.{some-injective}
use algors.Trie.Bytes.{IsBytes, common}
use algors.Trie.Bitmap.{child_pos_from_byte}
use algors.Trie.Node
use algors.Trie.Node.{
  Node, leaf, internal, prefix, val, set_val, put_val, children, child_exists, get_child_by_pos,
  set_child_by_pos, insert_child,
}
use algors.Trie.Node.Valid.{key, IsValid}
use algors.Trie.Node.Update.{
  found, found-IsChild, found-key, exists-found, get-found, IsChild, IsUpdate, set_child-at,
  insert_child-at,
}
use algors.Trie.Node.Fits.{new_prefix_lem, Fits, Fits-found, Fits-update, leaf-Fits}
use algors.Trie.Lookup.{strip, same, same-strip, after, lookup, lookup?, lookup_lem}
use algors.Trie.Map.{insert_loop}

module _ {ℓ} {A : Type ℓ} where
  -- `n'` is well formed, and holds what `n` does but `v` under `k`. Its prefix is as much of the
  -- prefix of `n` as `k` shares.
  pub record IsInserted (n : Node A) (k : List ℕ) (v : A) (n' : Node A) : Type ℓ where
    pub valid : IsValid n'
    pub shared : prefix n' ≡ take (common (prefix n) k) (prefix n)
    pub holds : (j : List ℕ) → lookup n' j ≡ (if same k j then some v else lookup n j)

  -- The end of the key, in a node of its own.
  pub end_lookup :
      (r : List ℕ) (v : A) (j : List ℕ)
      → lookup (leaf r (some v)) j ≡ (if same r j then some v else none)
  unfolding lookup strip same
  end_lookup [] v [] = refl
  end_lookup [] v (y ∷ j) = refl
  end_lookup (x ∷ r) v [] = refl
  end_lookup (x ∷ r) v (y ∷ j) = elim (Bool-cases (x == y)) [
    | inl e ↦ rw e (end_lookup r v j)
    | inr ne ↦ rw ne
  ]

  pub set_val-parts :
      (n : Node A) (v : A)
      → (prefix (set_val n v) ≡ prefix n)
        × (val (set_val n v) ≡ some v)
        × ◌≡◌ {A = ℕ → Option (Node A)} (λ b. found (set_val n v) b) (λ b. found n b)
  unfolding set_val put_val prefix val children
  set_val-parts (leaf p w) v = (refl, refl, refl)
  set_val-parts (internal p w m cs) v = (refl, refl, refl)

  pub set_val-IsValid : (n : Node A) (v : A) → IsValid n → IsValid (set_val n v)
  unfolding set_val put_val IsValid
  set_val-IsValid (leaf p w) v h = h
  set_val-IsValid (internal p w m cs) v h = h

  pub put_val-IsValid : (n : Node A) (v : Option A) → IsValid n → IsValid (put_val n v)
  unfolding put_val IsValid
  put_val-IsValid (leaf p w) v h = h
  put_val-IsValid (internal p w m cs) v h = h

  -- A node with another value, at each way in which a string can go on.
  at_end :
      (s : Option (List ℕ)) (v w : Option A) (f : ℕ → List ℕ → Option A)
      → after s none v f
        ≡ (if (elim s [ none ↦ false | some t ↦ same [] t ]) then v else after s none w f)
  unfolding same
  at_end none v w f = refl
  at_end (some []) v w f = refl
  at_end (some (b ∷ t)) v w f = refl

  pub put_val-parts :
      (n : Node A) (v : Option A)
      → (prefix (put_val n v) ≡ prefix n)
        × (val (put_val n v) ≡ v)
        × ◌≡◌ {A = ℕ → Option (Node A)} (λ b. found (put_val n v) b) (λ b. found n b)
  unfolding put_val prefix val children
  put_val-parts (leaf p w) v = (refl, refl, refl)
  put_val-parts (internal p w m cs) v = (refl, refl, refl)

  -- A node with `v` under `k`, or with nothing there.
  module _ (n : Node A) (k : List ℕ) (v : Option A) (valid : IsValid n) where
    -- The key ends at this node.
    pub put_val-holds :
        strip (prefix n) k ≡ some []
        → (j : List ℕ) → lookup (put_val n v) j ≡ (if same k j then v else lookup n j)
    put_val-holds e j =
        let (parts_prefix, parts_val, parts_found) = put_val-parts n v in
        rw
          (
            lookup_lem (put_val n v) j,
            lookup_lem n j,
            same-strip (prefix n) k j [] e,
            parts_prefix,
            parts_val,
          )
          (ap (λ f. after (strip (prefix n) j) none v (λ b r. lookup? (f b) r)) parts_found
            ∙ at_end (strip (prefix n) j) v (val n) (λ b r. lookup? (found n b) r))

    -- The key goes on below this node, in the child of its next byte.
    pub update-holds :
        (b : ℕ) (r : List ℕ) (o : Option (Node A)) (n' : Node A)
        → strip (prefix n) k ≡ some (b ∷ r)
        → IsUpdate n b o n'
        → ((j : List ℕ) → lookup? o j ≡ (if same (b ∷ r) j then v else lookup? (found n b) j))
        → (j : List ℕ) → lookup n' j ≡ (if same k j then v else lookup n j)
    unfolding same
    update-holds b r o n' e u below j =
        rw
          (
            lookup_lem n' j,
            lookup_lem n j,
            same-strip (prefix n) k j (b ∷ r) e,
            u.same_prefix,
            u.same_val,
          )
          (below_prefix (strip (prefix n) j))
      where
        below_prefix :
            (s : Option (List ℕ))
            → after s none (val n) (λ c t. lookup? (found n' c) t) ≡ (
                if (elim s [ none ↦ false | some t ↦ same (b ∷ r) t ])
                then v
                else after s none (val n) (λ c t. lookup? (found n c) t))
        below_prefix none = refl
        below_prefix (some []) = refl
        below_prefix (some (c ∷ t)) = elim (Bool-cases (b == c)) [
          | inl here ↦
              let e : b ≡ c = ground arith in
              subst
                (λ x.
                  lookup? (found n' x) (x ∷ t)
                  ≡ (if same (b ∷ r) (x ∷ t) then v else lookup? (found n x) (x ∷ t)))
                e
                (let self : (b == b) ≡ true = ground arith in
                  rw (u.finds b, self) (rw self at (below (b ∷ t))))
          | inr there ↦ rw (u.finds c, there)
        ]

  pub set_val-holds :
      (n : Node A) (k : List ℕ) (v : A)
      → IsValid n
      → strip (prefix n) k ≡ some []
      → (j : List ℕ) → lookup (set_val n v) j ≡ (if same k j then some v else lookup n j)
  unfolding set_val
  set_val-holds n k v valid e j = put_val-holds n k (some v) valid e j

  leaf-IsChild :
      (b : ℕ) (r : List ℕ) (v : A)
      → IsBytes (b ∷ r)
      → IsChild (leaf (b ∷ r) (some v)) × (key (leaf (b ∷ r) (some v)) ≡ b)
  unfolding prefix IsValid
  leaf-IsChild b r v bytes = ((omega arith, bytes), refl)

  -- What a call of `insert_loop` for the rest of the key is to do with the child `c`.
  abbrev pub Below : ℕ → ℕ → ℕ → List ℕ → A → Type ℓ
  Below fuel room b r v =
      (c : Node A)
      → IsChild c
      → key c ≡ b
      → Fits room c
      → Yields (λ d. IsInserted c (b ∷ r) v d × IsChild d × (key d ≡ b) × Fits room d)
          (insert_loop fuel c (b ∷ r) v)

  -- The part of a round below the split, at a node whose whole prefix starts the key.
  module _ (fuel : ℕ) (n : Node A) (v : A) (valid : IsValid n) where
    -- The branch for the next byte of the key: into the child, or to a new child.
    unfoldable pub branch : ℕ → List ℕ → Outcome (Node A)
    branch b r =
        let child_pos = child_pos_from_byte b in
        if child_exists n child_pos
        then (get_child_by_pos n child_pos >>= λ child. or_panic child >>= λ c.
            insert_loop fuel c (b ∷ r) v >>= λ d. done (set_child_by_pos n child_pos d))
        else (Node.new (b ∷ r) >>= λ fresh. insert_child n child_pos (set_val fresh v))

    pub branch-IsUpdate :
        (b : ℕ) (r : List ℕ)
        → IsBytes (b ∷ r)
        → (room : ℕ) → room ≤ 2 ^ 32
        → Fits room n
        → length (b ∷ r) < room - length (prefix n)
        → Below fuel (room - length (prefix n)) b r v
        → Yields
            (λ n'.
              (o : Option (Node A)) × IsUpdate n b o n'
              × Fits room n'
              × ((j : List ℕ)
                  → lookup? o j ≡ (if same (b ∷ r) j then some v else lookup? (found n b) j)))
            (branch b r)
    unfolding branch set_val put_val Node.new
    branch-IsUpdate b r bytes room limit fit short below = elim (Option-cases (found n b)) [
      | inl missing ↦
          let (child, at) = leaf-IsChild b r v bytes in
          let fresh : Node A = leaf (b ∷ r) (some v) in
          let fresh_fit = leaf-Fits (room - length (prefix n)) (b ∷ r) (some v) short in
          rw
            (exists-found n b valid bytes.0, missing, new_prefix_lem (b ∷ r) (omega (arith, short)))
            (Yields-mono
              (λ n' u. (
                some fresh,
                u,
                Fits-update n b (some fresh) n' room u fit (is_only fresh fresh_fit),
                end_lookup (b ∷ r) v,
              ))
              (insert_child-at n fresh b valid child at bytes.0 missing))
      | inr (c, here) ↦
          rw (exists-found n b valid bytes.0, here, get-found n b c valid bytes.0 here)
            (Yields-bind
              (below c (found-IsChild n b c valid here) (found-key n b c here)
                (Fits-found fit b c here))
              λ d (ins, child, at, fit').
                let u = set_child-at n d c b valid child at bytes.0 here in
                yields (
                  some d,
                  u,
                  Fits-update n b (some d) (set_child_by_pos n (child_pos_from_byte b) d) room u fit
                      (is_only d fit'),
                  ins.holds,
                ))
    ]
      where
        is_only :
            {room : ℕ} (d : Node A)
            → Fits room d
            → (c : Node A) → ◌≡◌ {A = Option (Node A)} (some d) (some c)
            → Fits room c
        is_only {room = room} d h c is = subst (λ k. Fits room k) (some-injective d c is) h
