-- ===== src/Trie/Lookup.antt =====
-- What a radix tree means: the value under a byte string, by recursion on the tree, with no bitmap
-- and no positions.
use algors.Prelude.{
  ℕ, ◌≡◌, ◌↔◌, refl, ap, ap₂, fun_ext, List, [], ◌∷◌, ◌++◌, Option, none, some, Bool, true, false,
  arith, ◌==◌, if◌then◌else◌, length, drop, Bool-cases, inl, inr,
}
use mathlib.Core.Option.{some-injective}
use algors.Trie.Bytes.{common}
use algors.Trie.Keyed.{find}
use algors.Trie.Node.{Node, leaf, internal, Nodes, nil, cons, to_list, prefix, val, children}
use algors.Trie.Node.Valid.{key}
use algors.Trie.Node.Update.{found}

-- What follows the prefix `p` in a string, if it starts with `p`.
unfoldable pub strip : List ℕ → List ℕ → Option (List ℕ)
strip [] k = some k
strip (x ∷ p) [] = none
strip (x ∷ p) (y ∷ k) = if x == y then strip p k else none

-- Equality of byte strings.
unfoldable pub same : List ℕ → List ℕ → Bool
same [] [] = true
same [] (y ∷ ys) = false
same (x ∷ xs) [] = false
same (x ∷ xs) (y ∷ ys) = if x == y then same xs ys else false

-- `at_end` if nothing is left of the string, else `under` its first byte, with what is left.
abbrev pub after {ℓ} : {B : Type ℓ} → Option (List ℕ) → B → B → (ℕ → List ℕ → B) → B
after none off at_end under = off
after (some []) off at_end under = at_end
after (some (b ∷ k)) off at_end under = under b (b ∷ k)

unfoldable mutual
  unfolding prefix

  pub lookup {ℓ} : {A : Type ℓ} → Node A → List ℕ → Option A
  lookup (leaf p v) k = after (strip p k) none v (λ b r. none)
  lookup (internal p v m cs) k = after (strip p k) none v (lookup_in cs)

  pub lookup_in {ℓ} : {A : Type ℓ} → Nodes A → ℕ → List ℕ → Option A
  lookup_in nil b k = none
  lookup_in (cons c cs) b k = if key c == b then lookup c k else lookup_in cs b k

module _ {ℓ} {A : Type ℓ} where
  -- The value under a string in the child that was found, if one was.
  abbrev pub lookup? : Option (Node A) → List ℕ → Option A
  lookup? none k = none
  lookup? (some c) k = lookup c k

  pub lookup_in-find :
      (cs : Nodes A) (b : ℕ) (k : List ℕ) → lookup_in cs b k ≡ lookup? (find key b (to_list cs)) k
  unfolding lookup find
  lookup_in-find nil b k = refl
  lookup_in-find (cons c cs) b k = elim (Bool-cases (key c == b)) [
    | inl here ↦ rw here
    | inr there ↦ rw there (lookup_in-find cs b k)
  ]

  -- Lookup at a node, by its prefix, its value and the child that it finds.
  pub lookup_lem :
      (n : Node A) (k : List ℕ)
      → lookup n k ≡ after (strip (prefix n) k) none (val n) (λ b r. lookup? (found n b) r)
  unfolding lookup prefix val children find
  lookup_lem (leaf p v) k = refl
  lookup_lem (internal p v m cs) k =
      ap (λ f. after (strip p k) none v f) (fun_ext λ b. fun_ext λ r. lookup_in-find cs b r)

pub strip_lem :
    (p k : List ℕ) → strip p k ≡ (if common p k == length p then some (drop (length p) k) else none)
unfolding strip common
strip_lem [] k = refl
strip_lem (x ∷ p) [] = ground arith
strip_lem (x ∷ p) (y ∷ k) = ground (arith, strip_lem p k)

pub same_refl : (xs : List ℕ) → same xs xs ≡ true
unfolding same
same_refl [] = refl
same_refl (x ∷ xs) = ground (arith, same_refl xs)

same-eq : (xs ys : List ℕ) → same xs ys ≡ true → xs ≡ ys
unfolding same
same-eq [] [] h = refl
same-eq [] (y ∷ ys) h = cc
same-eq (x ∷ xs) [] h = cc
same-eq (x ∷ xs) (y ∷ ys) h = elim (Bool-cases (x == y)) [
  | inl e ↦ ap₂ ◌∷◌ (ground arith) (same-eq xs ys (rw e at h))
  | inr ne ↦ let none_left : false ≡ true = rw ne at h in cc
]

pub same_iff : (xs ys : List ℕ) → (same xs ys ≡ true) ↔ (xs ≡ ys)
same_iff xs ys = (same-eq xs ys, λ e. rw e (same_refl ys))

-- `k` starts with `p`: another string is `k` exactly if it starts with `p` and goes on as `k` does.
pub same-strip :
    (p k j : List ℕ) (r : List ℕ)
    → strip p k ≡ some r
    → same k j ≡ elim (strip p j) [ none ↦ false | some s ↦ same r s ]
unfolding strip same
same-strip [] k j r e = ap (λ t. same t j) (some-injective k r e)
same-strip (x ∷ p) [] j r e = cc
same-strip (x ∷ p) (y ∷ k) [] r e = refl
same-strip (x ∷ p) (y ∷ k) (z ∷ j) r e = ground (arith, same-strip p k j r)

pub strip-append :
    (p q j : List ℕ) → strip (p ++ q) j ≡ elim (strip p j) [ none ↦ none | some s ↦ strip q s ]
unfolding strip
strip-append [] q j = refl
strip-append (x ∷ p) q [] = refl
strip-append (x ∷ p) q (y ∷ j) = ground (arith, strip-append p q j)
