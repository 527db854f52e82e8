-- ===== src/Trie/Node/Fits.antt =====
-- How long the keys of a tree of algors-trie/src/node.rs may get: `Prefix` stores lengths below 2 ^ 32 only.
use algors.Prelude.{
  ℕ, ◌+◌, ◌-◌, ◌^◌, ◌<◌, ◌≡◌, refl, sym, ap, ◌∙◌, subst, inl, inr, List, [], ◌∷◌, ◌++◌, Option,
  some, true, arith, done, ltb, ◌==◌, length, length-append, Bool-cases,
}
use mathlib.Core.Option.{some-injective}
use algors.Trie.Keyed.{find}
use algors.Trie.Node.{Node, leaf, internal, Nodes, to_list, prefix, children, new_prefix}
use algors.Trie.Node.Valid.{key}
use algors.Trie.Node.Update.{found, IsUpdate}

pub new_prefix_lem : (q : List ℕ) → length q < 2 ^ 32 → new_prefix q ≡ done q
unfolding new_prefix
new_prefix_lem q h = let short : ltb (length q) (2 ^ 32) ≡ true = ground arith in rw short refl

-- Every way down from the node spells fewer than `room` bytes.
pub data Fits {ℓ} {A : Type ℓ} : ℕ → Node A → Type ℓ where
  fits :
      {room : ℕ} {n : Node A}
      → length (prefix n) < room
      → ((b : ℕ) (c : Node A) → found n b ≡ some c → Fits (room - length (prefix n)) c)
      → Fits room n

module _ {ℓ} {A : Type ℓ} where
  pub Fits-prefix : {room : ℕ} {n : Node A} → Fits room n → length (prefix n) < room
  Fits-prefix (fits short below) = short

  pub Fits-found :
      {room : ℕ} {n : Node A}
      → Fits room n
      → (b : ℕ) (c : Node A) → found n b ≡ some c
      → Fits (room - length (prefix n)) c
  Fits-found (fits short below) = below

  -- A node with as many bytes in its prefix and the same children.
  pub Fits-same :
      (n n' : Node A) (room : ℕ)
      → prefix n' ≡ prefix n
      → ((b : ℕ) → found n' b ≡ found n b)
      → Fits room n
      → Fits room n'
  Fits-same n n' room e same h = fits (rw e (Fits-prefix h)) λ b c here.
      subst (λ p. Fits (room - length p) c) (sym e) (Fits-found h b c (sym (same b) ∙ here))

  pub Fits-update :
      (n : Node A) (b : ℕ) (o : Option (Node A)) (n' : Node A) (room : ℕ)
      → IsUpdate n b o n'
      → Fits room n
      → ((c : Node A) → o ≡ some c → Fits (room - length (prefix n)) c)
      → Fits room n'
  Fits-update n b o n' room u h new = fits (rw u.same_prefix (Fits-prefix h)) λ j c here.
      subst (λ p. Fits (room - length p) c) (sym u.same_prefix)
        (elim (Bool-cases (b == j)) [
          | inl same ↦ new c (sym (u.finds j ∙ rw same refl) ∙ here)
          | inr other ↦ Fits-found h j c (sym (u.finds j ∙ rw other refl) ∙ here)
        ])

  -- A prefix cut in two: the end of it, with the children.
  pub Fits-lower :
      (n low : Node A) (room l : ℕ)
      → l + length (prefix low) ≡ length (prefix n)
      → ((b : ℕ) → found low b ≡ found n b)
      → Fits room n
      → Fits (room - l) low
  Fits-lower n low room l e same h =
      let left : room - length (prefix n) ≡ room - l - length (prefix low) = omega (arith, e) in
      fits (omega (arith, e, Fits-prefix h))
        λ b c here. subst (λ k. Fits k c) left (Fits-found h b c (sym (same b) ∙ here))

  -- A node joined with its child `c`.
  pub Fits-join :
      (n c m : Node A) (room : ℕ)
      → prefix m ≡ prefix n ++ prefix c
      → ((b : ℕ) → found m b ≡ found c b)
      → Fits room n
      → Fits (room - length (prefix n)) c
      → Fits room m
  Fits-join n c m room e same h child =
      let size : length (prefix m) ≡ length (prefix n) + length (prefix c) =
        ap length e ∙ length-append (prefix n) (prefix c) in
      let left : room - length (prefix n) - length (prefix c) ≡ room - length (prefix m) =
        omega (arith, size) in
      fits (omega (arith, size, Fits-prefix h, Fits-prefix child))
        λ b d here. subst (λ k. Fits k d) left (Fits-found child b d (sym (same b) ∙ here))

  abbrev pub AllFit : ℕ → List (Node A) → Type ℓ
  AllFit room [] = Unit {ℓ}
  AllFit room (c ∷ cs) = Fits room c × AllFit room cs

  AllFit-find :
      (room j : ℕ) (cs : List (Node A)) (c : Node A)
      → AllFit room cs
      → find key j cs ≡ some c
      → Fits room c
  unfolding find
  AllFit-find room j [] c h e = cc
  AllFit-find room j (d ∷ cs) c h e = elim (Bool-cases (key d == j)) [
    | inl here ↦ subst (λ k. Fits room k) (some-injective d c (rw here at e)) h.0
    | inr there ↦ AllFit-find room j cs c h.1 (rw there at e)
  ]

  pub leaf-Fits : (room : ℕ) (p : List ℕ) (v : Option A) → length p < room → Fits room (leaf p v)
  unfolding prefix children find
  leaf-Fits room p v short = fits short λ b c here. cc

  pub internal-Fits :
      (room : ℕ) (p : List ℕ) (v : Option A) (m : _) (cs : Nodes A)
      → length p < room
      → AllFit (room - length p) (to_list cs)
      → Fits room (internal p v m cs)
  unfolding prefix children
  internal-Fits room p v m cs short all =
      fits short λ b c here. AllFit-find (room - length p) b (to_list cs) c all here
