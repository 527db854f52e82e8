-- ===== src/Trie/RawVec/Correct/Remove.antt =====
-- `get` and `remove` of `BoundedRawVec`, algors-trie/src/util.rs.
use mathlib.Core.List.{append_assoc}
use algors.Prelude.{
  ℕ, zero, suc, ◌+◌, ◌-◌, ◌^◌, ◌≤◌, ◌<◌, ◌≡◌, refl, sym, ap, ◌∙◌, subst, inl, inr, List, [], ◌∷◌,
  ◌++◌, Option, none, some, true, false, ◌||◌, Bool-cases, arith, done, leb, ◌==◌, length,
  length-append, get_elem?, get_elem?-none, drop, Yields, yields, Yields-mono,
}
use algors.Trie.Keyed.{remove_at}
use algors.Trie.RawVec.{RawVec, Memory, put, read, cells_at, store_at, get, remove}
use algors.Trie.RawVec.Pointer.{as_mut_ptr-exact}
use algors.Trie.RawVec.Correct.{
  filled, length-filled, filled-append, get_elem?-middle, cells_at-exact, store_at-exact, put_self,
  block-exact, IsTagged, IsVec, unallocated, allocated,
}

module _ {ℓ} {A : Type ℓ} where
  get_elem?-filled :
      (xs : List A) (rest : List (Option A)) (i : ℕ) (x : A)
      → get_elem? xs i ≡ some x
      → get_elem? (filled xs ++ rest) i ≡ some (some x)
  get_elem?-filled [] rest i x e = cc
  get_elem?-filled (y ∷ xs) rest zero x e = let same : y ≡ x = cc in ap (λ k. some (some k)) same
  get_elem?-filled (y ∷ xs) rest (suc i) x e = get_elem?-filled xs rest i x e

  pub read-filled :
      (xs : List A) (rest : List (Option A)) (i : ℕ) (x : A)
      → get_elem? xs i ≡ some x
      → read (filled xs ++ rest) i ≡ done x
  unfolding read
  read-filled xs rest i x e = rw (read, get_elem?-filled xs rest i x e)

  get_elem?-some : (xs : List A) (i : ℕ) → i < length xs → (x : A) × (get_elem? xs i ≡ some x)
  get_elem?-some [] i lt = absurd (omega arith)
  get_elem?-some (x ∷ xs) zero lt = (x, refl)
  get_elem?-some (x ∷ xs) (suc i) lt = get_elem?-some xs i (omega arith)

  -- What is left is split at the element.
  split-at :
      (xs : List A) (i : ℕ) (x : A)
      → get_elem? xs i ≡ some x
      → (l : List A) × (r : List A) × (length l ≡ i) × (l ++ x ∷ r ≡ xs) × (l ++ r ≡ remove_at xs i)
  split-at [] i x e = cc
  split-at (y ∷ xs) zero x e =
      let same : y ≡ x = cc in ([], xs, refl, ap (λ k. k ∷ xs) (sym same), refl)
  split-at (y ∷ xs) (suc i) x e =
      let (l, r, at, whole, less) = split-at xs i x e in
      (y ∷ l, r, ap suc at, ap (◌∷◌ y) whole, ap (◌∷◌ y) less)

  last-drop :
      (c : Option A) (xs rest : List (Option A))
      → (g : Option A) × (drop (length xs) (c ∷ (xs ++ rest)) ≡ g ∷ rest)
  last-drop c [] rest = (c, refl)
  last-drop c (x ∷ xs) rest = last-drop x xs rest

  -- The cells after the gap go down by one.
  close_up :
      (low : List (Option A)) (c : Option A) (xs rest : List (Option A)) (i : ℕ)
      → i ≡ length low
      → (g : Option A) × (store_at (low ++ (c ∷ (xs ++ rest))) i xs
          ≡ done (low ++ (xs ++ (g ∷ rest))))
  close_up low c xs rest i at =
      let (g, ys, turned, same) = turn_back c xs in
      (
        g,
        ap (λ k. store_at (low ++ k) i xs)
              (ap (λ k. k ++ rest) turned ∙ append_assoc ys (g ∷ []) rest)
            ∙ store_at-exact low ys (g ∷ rest) xs i at (sym same),
      )
    where
      turn_back :
          (c : Option A) (xs : List (Option A))
          → (g : Option A) × (ys : List (Option A)) × (c ∷ xs ≡ ys ++ g ∷ [])
            × (length ys ≡ length xs)
      turn_back c [] = (c, [], refl, refl)
      turn_back c (x ∷ xs) =
          let (g, ys, e, same) = turn_back x xs in (g, c ∷ ys, ap (◌∷◌ c) e, ap suc same)

  module _ (mem : Memory A) (v : RawVec) where
    tagged-test : (p tag i n : ℕ) → IsTagged v p tag → i < n → ((v.tagged == 0) || leb n i) ≡ false
    tagged-test p tag i n tagged lt = let at = tagged.at in let pos = tagged.pos in ground arith

    pub get-get_elem? :
        (xs : List A) (i : ℕ) → IsVec v mem xs → get mem v i (length xs) ≡ done (get_elem? xs i)
    unfolding get
    get-get_elem? xs i vec = elim (Bool-cases (leb (length xs) i)) [
      | inl beyond ↦
          let test : ((v.tagged == 0) || leb (length xs) i) ≡ true = ground arith in
          rw test (ap done (sym (get_elem?-none xs i (ground arith))))
      | inr inside ↦ elim vec [
        | unallocated null empty ↦ absurd (ground (arith, ap length empty))
        | allocated p tag rest tagged cells size ↦
            let (x, e) = get_elem?-some xs i (ground arith) in
            rw (
              tagged-test p tag i (length xs) tagged (ground arith),
              as_mut_ptr-exact v p tag tagged.at tagged.even tagged.pos tagged.lt tagged.small,
              block-exact mem p (filled xs ++ rest) cells,
              read-filled xs rest i x e,
              e,
            )
      ]
    ]

    -- What `remove` of the element at `i` comes to.
    abbrev pub Removes : List A → ℕ → Option A × Memory A → Type ℓ
    Removes xs i (res, mem') = (res ≡ get_elem? xs i) × IsVec v mem' (remove_at xs i)

    remove-between :
        (l r : List A) (x : A) (p tag : ℕ) (rest : List (Option A))
        → IsTagged v p tag
        → mem p ≡ some (filled (l ++ x ∷ r) ++ rest)
        → length (l ++ x ∷ r) + length rest ≡ 2 ^ (tag + 1)
        → Yields
            (λ (res, mem'). (res ≡ some x) × IsVec v mem' (l ++ r))
            (remove mem v (length l) (length (l ++ x ∷ r)))
    unfolding remove
    remove-between l r x p tag rest tagged cells size =
        let regroup : filled (l ++ x ∷ r) ++ rest ≡ filled l ++ (some x ∷ (filled r ++ rest)) =
          ap (λ k. k ++ rest) (filled-append l (x ∷ r))
          ∙ append_assoc (filled l) (some x ∷ filled r) rest in
        let past : filled l ++ (some x ∷ (filled r ++ rest))
            ≡ (filled l ++ some x ∷ []) ++ (filled r ++ rest) =
          sym (append_assoc (filled l) (some x ∷ []) (filled r ++ rest)) in
        let one : length l + 1 ≡ length (filled l ++ some x ∷ []) =
          omega (arith, length-append (filled l) (some x ∷ []), length-filled l) in
        let count : length (l ++ x ∷ r) - length l - 1 ≡ length (filled r) =
          omega (arith, length-append l (x ∷ r), length-filled r) in
        let (g, closed) =
          close_up (filled l) (some x) (filled r) rest (length l) (sym (length-filled l)) in
        let found = read-filled (l ++ x ∷ r) rest (length l) x (get_elem?-middle l r x) in
        let high : cells_at (filled (l ++ x ∷ r) ++ rest) (length l + 1)
              (length (l ++ x ∷ r) - length l - 1)
            ≡ done (filled r) =
          ap (λ k. cells_at k (length l + 1) (length (l ++ x ∷ r) - length l - 1)) (regroup ∙ past)
          ∙ cells_at-exact (filled l ++ some x ∷ []) (filled r) rest (length l + 1)
              (length (l ++ x ∷ r) - length l - 1) one count in
        rw
          (
            tagged-test p tag (length l) (length (l ++ x ∷ r)) tagged
                (omega (arith, length-append l (x ∷ r))),
            as_mut_ptr-exact v p tag tagged.at tagged.even tagged.pos tagged.lt tagged.small,
            block-exact mem p (filled (l ++ x ∷ r) ++ rest) cells,
            found,
            high,
            regroup,
            closed,
          )
          (yields {a = (some x, put mem p (some (filled l ++ (filled r ++ (g ∷ rest)))))} (
            refl,
            allocated p tag (g ∷ rest) tagged
                (put_self mem p (some (filled l ++ (filled r ++ (g ∷ rest))))
                  ∙ ap some (
                      sym (append_assoc (filled l) (filled r) (g ∷ rest))
                      ∙ ap (λ k. k ++ (g ∷ rest)) (sym (filled-append l r))))
                (omega (arith, length-append l r, length-append l (x ∷ r))),
          ))

    remove_at-beyond : (xs : List A) (i : ℕ) → length xs ≤ i → remove_at xs i ≡ xs
    remove_at-beyond [] i le = refl
    remove_at-beyond (y ∷ xs) zero le = absurd (omega arith)
    remove_at-beyond (y ∷ xs) (suc i) le = ap (◌∷◌ y) (remove_at-beyond xs i (omega arith))

    remove-within :
        (xs : List A) (i : ℕ) (x : A)
        → get_elem? xs i ≡ some x
        → IsVec v mem xs
        → Yields (Removes xs i) (remove mem v i (length xs))
    remove-within xs i x e (unallocated null empty) =
        let clash : none ≡ some x = ap (λ k. get_elem? k i) (sym empty) ∙ e in cc
    remove-within xs i x e (allocated p tag rest tagged cells size) =
        let (l, r, at, whole, less) = split-at xs i x e in
        let step =
          remove-between l r x p tag rest tagged
            (cells ∙ ap (λ k. some (filled k ++ rest)) (sym whole))
            (ap (λ k. length k + length rest) whole ∙ size) in
        Yields-mono (λ (res, mem') (res_eq, vec). (res_eq ∙ sym e, subst (IsVec v mem') less vec))
          (subst
            (λ n.
              Yields (λ (res, mem'). (res ≡ some x) × IsVec v mem' (l ++ r))
                (remove mem v n (length xs)))
            at
            (subst
              (λ k.
                Yields (λ (res, mem'). (res ≡ some x) × IsVec v mem' (l ++ r))
                  (remove mem v (length l) (length k)))
              whole step))

    pub remove-Removes :
        (xs : List A) (i : ℕ) → IsVec v mem xs → Yields (Removes xs i) (remove mem v i (length xs))
    unfolding remove
    remove-Removes xs i vec = elim (Bool-cases (leb (length xs) i)) [
      | inl beyond ↦
          let test : ((v.tagged == 0) || leb (length xs) i) ≡ true = ground arith in
          rw test (
            yields {a = (none, mem)} (
              sym (get_elem?-none xs i (ground arith)),
              subst (IsVec v mem) (sym (remove_at-beyond xs i (ground arith))) vec,
            ))
      | inr inside ↦ let (x, e) = get_elem?-some xs i (ground arith) in remove-within xs i x e vec
    ]
