-- ===== src/Trie/Remove/Starts.antt =====
-- Byte strings that start with another one, and a tree without those that start with the prefix that
-- `remove_prefix` of algors-trie/src/trie.rs gets.
use algors.Prelude.{
  ℕ, ◌≡◌, ◌≢◌, refl, ap, subst, inl, inr, List, [], ◌∷◌, Option, none, some, Bool, true, false,
  arith, ◌==◌, if◌then◌else◌, length, Bool-cases,
}
use mathlib.Core.Option.{some-injective}
use algors.Trie.Bytes.{common}
use algors.Trie.Node.{Node, prefix, val}
use algors.Trie.Node.Update.{found, IsUpdate}
use algors.Trie.Lookup.{strip, after, lookup, lookup?, lookup_lem}

-- `j` starts with `k`.
unfoldable pub starts : List ℕ → List ℕ → Bool
starts k j = elim (strip k j) [ none ↦ false | some s ↦ true ]

pub starts-strip :
    (p k j r : List ℕ)
    → strip p k ≡ some r
    → starts k j ≡ elim (strip p j) [ none ↦ false | some s ↦ starts r s ]
unfolding strip starts
starts-strip [] k j r e = ap (λ t. starts t j) (some-injective k r e)
starts-strip (x ∷ p) [] j r e = cc
starts-strip (x ∷ p) (y ∷ k) [] r e = refl
starts-strip (x ∷ p) (y ∷ k) (z ∷ j) r e = ground (arith, starts-strip p k j r)

-- `q` starts with `r`, so what does not start with `r` does not start with `q`.
pub longer-strip : (q r j : List ℕ) → common q r ≡ length r → starts r j ≡ false → strip q j ≡ none
unfolding strip starts common
longer-strip q [] j e f = cc
longer-strip [] (y ∷ r) j e f = absurd (omega arith)
longer-strip (x ∷ q) (y ∷ r) [] e f = refl
longer-strip (x ∷ q) (y ∷ r) (z ∷ j) e f = ground (arith, longer-strip q r j)

-- `q` and `r` part, so nothing starts with both.
pub parted-strip :
    (q r j : List ℕ)
    → common q r ≢ length q
    → common q r ≢ length r
    → starts r j ≡ true
    → strip q j ≡ none
unfolding strip starts common
parted-strip [] r j e f g = absurd (e refl)
parted-strip (x ∷ q) [] j e f g = absurd (f refl)
parted-strip (x ∷ q) (y ∷ r) [] e f g = refl
parted-strip (x ∷ q) (y ∷ r) (z ∷ j) e f g = ground (arith, parted-strip q r j)

starts-other : (b c : ℕ) (r t : List ℕ) → (b == c) ≡ false → starts (b ∷ r) (c ∷ t) ≡ false
unfolding starts strip
starts-other b c r t e =
    ap (λ x. elim (if x then strip r t else none) [ none ↦ false | some s ↦ true ]) e

module _ {ℓ} {A : Type ℓ} where
  -- `f` is `g` without what starts with `k`.
  abbrev pub Cuts : List ℕ → (List ℕ → Option A) → (List ℕ → Option A) → Type ℓ
  Cuts k g f = (j : List ℕ) → f j ≡ (if starts k j then none else g j)

  -- A cut in the child of the next byte is one in the node.
  pub update-Cuts :
      (n : Node A) (k : List ℕ) (b : ℕ) (r : List ℕ) (o : Option (Node A)) (n' : Node A)
      → strip (prefix n) k ≡ some (b ∷ r)
      → IsUpdate n b o n'
      → Cuts (b ∷ r) (lookup? (found n b)) (lookup? o)
      → Cuts k (lookup n) (lookup n')
  unfolding starts strip
  update-Cuts n k b r o n' e u below j =
      rw
        (
          lookup_lem n' j,
          lookup_lem n j,
          starts-strip (prefix n) k j (b ∷ r) e,
          u.same_prefix,
          u.same_val,
        )
        (below_prefix (strip (prefix n) j))
    where
      below_prefix :
          (s : Option (List ℕ))
          → after s none (val n) (λ c t. lookup? (found n' c) t) ≡ (
              if (elim s [ none ↦ false | some t ↦ starts (b ∷ r) t ])
              then none
              else after s none (val n) (λ c t. lookup? (found n c) t))
      below_prefix none = refl
      below_prefix (some []) = refl
      below_prefix (some (c ∷ t)) = elim (Bool-cases (b == c)) [
        | inl here ↦
            let e : b ≡ c = ground arith in
            subst
              (λ x.
                lookup? (found n' x) (x ∷ t)
                ≡ (if starts (b ∷ r) (x ∷ t) then none else lookup? (found n x) (x ∷ t)))
              e (let self : (b == b) ≡ true = ground arith in rw (u.finds b, self) (below (b ∷ t)))
        | inr there ↦ rw (u.finds c, there, starts-other b c r t there) refl
      ]

  -- A node whose prefix starts with `r` holds only what starts with it.
  pub all-Cuts :
      (n : Node A) (r : List ℕ) → common (prefix n) r ≡ length r → Cuts r (lookup n) (λ j. none)
  all-Cuts n r e j = elim (Bool-cases (starts r j)) [
    | inl inside ↦ rw inside refl
    | inr outside ↦ rw (outside, lookup_lem n j, longer-strip (prefix n) r j e outside) refl
  ]
