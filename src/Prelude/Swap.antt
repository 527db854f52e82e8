-- ===== src/Prelude/Swap.antt =====
-- `Vec::swap` on lists, and what it does to each index and to the multiset of entries.
use mathlib.Core.List.{perm_middle, append-nil, Permᴰ}
use mathlib.Core.List.Perm
use mathlib.Core.Logic.{∥∥₁_elim}
use native.Mathlib.Nat.{ℕ_set}
use algors.Prelude.{
  ℕ, zero, suc, ◌<◌, ◌≡◌, refl, ap, ◌∙◌, List, [], ◌∷◌, ◌++◌, Perm, arith, ◌==◌, if◌then◌else◌,
  length, get_or, set, take, length-set, get_or-set,
}

module _ {ℓ} {A : Type ℓ} where
  Permᴰ-length : {xs ys : List A} → Permᴰ xs ys → length xs ≡ length ys
  Permᴰ-length Permᴰ.nil = refl
  Permᴰ-length (Permᴰ.cons _ same) = ap suc (Permᴰ-length same)
  Permᴰ-length (Permᴰ.swap _ _) = refl
  Permᴰ-length (Permᴰ.trans first second) = Permᴰ-length first ∙ Permᴰ-length second

  pub length-perm : {xs ys : List A} → Perm xs ys → length xs ≡ length ys
  length-perm same = ∥∥₁_elim same (ℕ_set _ _) Permᴰ-length

  pub snoc-perm : (xs : List A) (x : A) → Perm (xs ++ x ∷ []) (x ∷ xs)
  snoc-perm xs x = rw (append-nil xs) at (perm_middle {a = x} xs [])

  -- A write trades the old entry for the new one.
  set-perm :
      (xs : List A) (i : ℕ) (v d : A) → i < length xs → Perm (get_or xs i d ∷ set xs i v) (v ∷ xs)
  set-perm [] i v d h = absurd (omega arith)
  set-perm (x ∷ xs) zero v d h = Perm.swap v x xs
  set-perm (x ∷ xs) (suc i) v d h =
      let inner = Perm.cons x (set-perm xs i v d (omega arith)) in
      Perm.trans (Perm.swap x _ _) (Perm.trans inner (Perm.swap v x xs))

  -- The last entry, split off.
  pub take-snoc_last :
      (n : ℕ) (xs : List A) (d : A) → length xs ≡ suc n → take n xs ++ get_or xs n d ∷ [] ≡ xs
  take-snoc_last n [] d h = absurd (omega arith)
  take-snoc_last zero (x ∷ []) d h = refl
  take-snoc_last zero (x ∷ y ∷ xs) d h = absurd (omega arith)
  take-snoc_last (suc n) (x ∷ xs) d h = ap (◌∷◌ x) (take-snoc_last n xs d (omega arith))

-- Both entries are read before either is written; `d` is never the result at indices in range.
abbrev pub swapped {ℓ} : {A : Type ℓ} → A → List A → ℕ → ℕ → List A
swapped d xs i j = set (set xs i (get_or xs j d)) j (get_or xs i d)

module _ {ℓ} {A : Type ℓ} (d : A) (xs : List A) (i j : ℕ) (hi : i < length xs)
    (hj : j < length xs) where
  pub length-swapped : length (swapped d xs i j) ≡ length xs
  length-swapped = length-set _ j _ ∙ length-set xs i _

  pub get_or-swapped :
      (k : ℕ)
      → get_or (swapped d xs i j) k d
        ≡ (if j == k then get_or xs i d else if i == k then get_or xs j d else get_or xs k d)
  get_or-swapped k = rw (
    get_or-set (set xs i (get_or xs j d)) j k (get_or xs i d) d (rw length-set hj),
    get_or-set xs i k (get_or xs j d) d hi,
  )

  pub swapped-perm : Perm (swapped d xs i j) xs
  swapped-perm =
      let mid = set xs i (get_or xs j d) in
      let same : get_or mid j d ≡ get_or xs j d =
        ground (arith, get_or-set xs i j (get_or xs j d) d) in
      let outer = rw same at (set-perm mid j (get_or xs i d) d (rw length-set hj)) in
      Perm.cons_inv (Perm.trans outer (set-perm xs i (get_or xs j d) d hi))
