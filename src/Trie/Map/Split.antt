-- ===== src/Trie/Map/Split.antt =====
-- Splitting a node in `insert` of algors-trie/src/trie.rs: the tree holds what it held.
use algors.Prelude.{
  ℕ, ◌+◌, ◌-◌, ◌^◌, ◌<◌, ◌≡◌, refl, subst, length-append, ap, sym, ◌∙◌, inl, inr, List, [], ◌∷◌,
  Option, none, some, false, arith, done, ◌>>=◌, Yields, Yields-mono, ◌==◌, length, drop, take,
  get_or, length-drop, Bool-cases, take-append-drop,
}
use mathlib.Core.Option.{some-injective}
use algors.Trie.Bytes.{IsBytes, IsBytes-drop, IsBytes-take}
use algors.Trie.Bitmap.{child_pos_from_byte, empty}
use algors.Trie.Node
use algors.Trie.Node.{
  Node, new_prefix, leaf, internal, nil, prefix, val, set_val, put_val, take_val, set_prefix,
  children, transfer_children, first_byte, insert_child, upgrade_to_internal,
}
use algors.Trie.Bitmap.Laws.{digit-empty}
use algors.Trie.Keyed.{find}
use algors.Trie.Node.Valid.{key, IsValid}
use algors.Trie.Node.Update.{found, IsChild, IsUpdate, insert_child-at}
use algors.Trie.Node.Fits.{new_prefix_lem, Fits, fits, Fits-prefix, Fits-update, Fits-lower}
use algors.Trie.Lookup.{strip, strip-append, after, lookup, lookup?, lookup_lem}
use algors.Trie.Map.{split}
use algors.Trie.Map.Get.{prefix-IsBytes}

cut_size : (p : List ℕ) (l : ℕ) → length (take l p) + length (drop l p) ≡ length p
cut_size p l = sym (length-append (take l p) (drop l p)) ∙ ap length (take-append-drop l p)

drop_short : (p : List ℕ) (l : ℕ) → length p < 2 ^ 32 → new_prefix (drop l p) ≡ done (drop l p)
drop_short p l short = new_prefix_lem (drop l p) (omega (arith, short, length-drop l p))

take_short : (p : List ℕ) (l : ℕ) → length p < 2 ^ 32 → new_prefix (take l p) ≡ done (take l p)
take_short p l short = new_prefix_lem (take l p) (omega (arith, short, cut_size p l))

module _ {ℓ} {A : Type ℓ} where
  -- The two nodes that a split makes of one.
  upper : Node A → ℕ → Node A
  upper (leaf p v) l = leaf (take l p) none
  upper (internal p v m cs) l = internal (take l p) none empty nil

  lower : Node A → ℕ → Node A
  lower (leaf p v) l = leaf (drop l p) v
  lower (internal p v m cs) l = internal (drop l p) v m cs

  split_lem :
      (n : Node A) (l : ℕ)
      → length (prefix n) < 2 ^ 32
      → split n l ≡ (
          first_byte (drop l (prefix n)) >>= λ byte.
          insert_child (upper n l) (child_pos_from_byte byte) (lower n l))
  unfolding split upper lower prefix val take_val put_val set_val set_prefix transfer_children
      Node.new
  split_lem (leaf p none) l short = rw (drop_short p l short, take_short p l short) refl
  split_lem (leaf p (some x)) l short = rw (drop_short p l short, take_short p l short) refl
  split_lem (internal p none m cs) l short = rw (drop_short p l short, take_short p l short) refl
  split_lem (internal p (some x) m cs) l short =
      rw (drop_short p l short, take_short p l short) refl

  upper-parts :
      (n : Node A) (l : ℕ)
      → IsValid n
      → IsValid (upper n l)
        × (prefix (upper n l) ≡ take l (prefix n))
        × (val (upper n l) ≡ none)
        × ((j : ℕ) → found (upper n l) j ≡ none)
  unfolding IsValid prefix val children find upper
  upper-parts (leaf p v) l h = (IsBytes-take l p h, refl, refl, λ j. refl)
  upper-parts (internal p v m cs) l h = (
    (IsBytes-take l p h.0, record { agrees = λ j lt. digit-empty j; ascending = tt }, tt),
    refl,
    refl,
    λ j. refl,
  )

  lower-parts :
      (n : Node A) (l : ℕ)
      → IsValid n
      → IsValid (lower n l)
        × (prefix (lower n l) ≡ drop l (prefix n))
        × (val (lower n l) ≡ val n)
        × ◌≡◌ {A = ℕ → Option (Node A)} (λ j. found (lower n l) j) (λ j. found n j)
  unfolding IsValid prefix val children find lower
  lower-parts (leaf p v) l h = (IsBytes-drop l p h, refl, refl, refl)
  lower-parts (internal p v m cs) l h = ((IsBytes-drop l p h.0, h.1, h.2), refl, refl, refl)

-- A string whose first byte is another one does not start with `q`.
pub strip-other :
    (q : List ℕ) (b : ℕ) (s : List ℕ)
    → 0 < length q
    → (get_or q 0 0 == b) ≡ false
    → strip q (b ∷ s) ≡ none
unfolding strip
strip-other [] b s pos ne = absurd (omega arith)
strip-other (x ∷ q) b s pos ne = rw ne

pub strip-nil : (q : List ℕ) → 0 < length q → strip q [] ≡ none
unfolding strip
strip-nil [] pos = absurd (omega arith)
strip-nil (x ∷ q) pos = refl

pub first_byte_lem : (q : List ℕ) → 0 < length q → first_byte q ≡ done (get_or q 0 0)
unfolding first_byte
first_byte_lem [] pos = absurd (omega arith)
first_byte_lem (x ∷ q) pos = refl

pub first-lt : (q : List ℕ) → 0 < length q → IsBytes q → get_or q 0 0 < 256
first-lt [] pos h = absurd (omega arith)
first-lt (x ∷ q) pos h = h.0

module _ {ℓ} {A : Type ℓ} (n : Node A) (l : ℕ) (valid : IsValid n)
    (inner : l < length (prefix n)) where
  low : Node A
  low = lower n l

  abbrev rest : List ℕ
  rest = drop l (prefix n)

  rest_pos : 0 < length rest
  rest_pos = omega (arith, length-drop l (prefix n))

  low-key : key low ≡ get_or rest 0 0
  unfolding low prefix
  low-key = ap (λ q. get_or q 0 0) (lower-parts n l valid).1

  low-IsChild : IsChild low
  unfolding low
  low-IsChild =
      let (ok, same_prefix, same_val, same_found) = lower-parts n l valid in
      (rw same_prefix rest_pos, ok)

  -- A lookup in the lower node goes on where the upper prefix ends.
  low-lookup :
      (j : List ℕ) → lookup low j ≡ after (strip rest j) none (val n) (λ b r. lookup? (found n b) r)
  unfolding low
  low-lookup j =
      let (ok, same_prefix, same_val, same_found) = lower-parts n l valid in
      rw (lookup_lem (lower n l) j, same_prefix, same_val)
        (ap (λ f. after (strip rest j) none (val n) (λ b r. lookup? (f b) r)) same_found)

  -- At each way in which a string goes on past the upper prefix.
  below_split :
      (n' : Node A)
      → IsUpdate (upper n l) (key low) (some low) n'
      → (s : Option (List ℕ))
      → after s none none (λ b r. lookup? (found n' b) r)
        ≡ after
            (elim s [ none ↦ none | some t ↦ strip rest t ])
            none
            (val n)
            (λ b r. lookup? (found n b) r)
  below_split n' u none = refl
  below_split n' u (some []) = rw (strip-nil rest rest_pos)
  below_split n' u (some (b ∷ t)) = elim (Bool-cases (key low == b)) [
    | inl here ↦ rw (u.finds b, here) (low-lookup (b ∷ t))
    | inr there ↦ rw (
      u.finds b,
      there,
      (upper-parts n l valid).3 b,
      strip-other rest b t rest_pos (rw low-key at there),
    )
  ]

  split-Fits :
      (n' : Node A)
      → IsUpdate (upper n l) (key low) (some low) n'
      → (room : ℕ) → Fits room n
      → Fits room n'
  unfolding low
  split-Fits n' u room h =
      let (ok, same_prefix, same_val, same_found) = lower-parts n l valid in
      let (ok', above_prefix, above_val, above_found) = upper-parts n l valid in
      let size : length (prefix (upper n l)) + length (prefix (lower n l)) ≡ length (prefix n) =
        rw (above_prefix, same_prefix) (cut_size (prefix n) l) in
      let fit : Fits (room - length (prefix (upper n l))) (lower n l) =
        Fits-lower n (lower n l) room (length (prefix (upper n l))) size
          (λ b. ap (λ f. f b) same_found) h in
      Fits-update (upper n l) (key (lower n l)) (some (lower n l)) n' room u
        (fits (omega (arith, size, Fits-prefix h))
          λ b c here. let clash : none ≡ some c = sym (above_found b) ∙ here in cc)
        λ c is.
          subst (λ k. Fits (room - length (prefix (upper n l))) k) (some-injective (lower n l) c is)
            fit

  -- A split of a well-formed node inside its prefix, at `l`, where that has less than 2 ^ 32 bytes, ends with a well-formed node; it keeps
  -- the part of the prefix before `l`, and holds what the node held.
  pub split-holds :
      length (prefix n) < 2 ^ 32
      → Yields
          (λ n'.
            IsValid n'
            × (prefix n' ≡ take l (prefix n))
            × ((j : List ℕ) → lookup n' j ≡ lookup n j)
            × ((room : ℕ) → Fits room n → Fits room n'))
          (split n l)
  unfolding low
  split-holds short =
      let (ok, same_prefix, same_val, same_found) = upper-parts n l valid in
      let lt = first-lt rest rest_pos (IsBytes-drop l (prefix n) (prefix-IsBytes n valid)) in
      rw (split_lem n l short, first_byte_lem rest rest_pos, ← low-key)
        (Yields-mono
          (λ n' u. (
            u.valid,
            u.same_prefix ∙ same_prefix,
            λ j.
                rw
                  (
                    lookup_lem n' j,
                    lookup_lem n j,
                    u.same_prefix,
                    same_prefix,
                    u.same_val,
                    same_val,
                  )
                  (below_split n' u (strip (take l (prefix n)) j)
                    ∙ ap (λ o. after o none (val n) (λ b r. lookup? (found n b) r))
                        (sym (strip-append (take l (prefix n)) rest j)
                          ∙ ap (λ q. strip q j) (take-append-drop l (prefix n)))),
            split-Fits n' u,
          ))
          (insert_child-at (upper n l) low (key low) ok low-IsChild refl (rw low-key lt)
            (same_found (key low))))
