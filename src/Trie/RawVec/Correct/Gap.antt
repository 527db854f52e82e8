-- ===== src/Trie/RawVec/Correct/Gap.antt =====
-- `insert` of `BoundedRawVec`, algors-trie/src/util.rs: the gap for the element, and the write into it.
use mathlib.Core.List.{append_assoc}
use algors.Prelude.{
  ℕ, suc, ◌+◌, ◌-◌, ◌^◌, ◌≡◌, refl, sym, ap, ◌∙◌, List, [], ◌∷◌, ◌++◌, Option, some, Bool, true,
  arith, done, leb, length, length-append, Yields, yields,
}
use algors.Trie.RawVec.{RawVec, Memory, sub, store_at, shift, write}
use algors.Trie.RawVec.Pointer.{as_mut_ptr-exact}
use algors.Trie.RawVec.Correct.{
  filled, length-filled, filled-append, cells_at-exact, store_at-exact, put_self, block-exact,
  IsTagged, IsVec, allocated,
}

module _ {ℓ} {A : Type ℓ} where
  -- The block has room for one element between those of `l` and `r`.
  abbrev pub HasGap : List A → List A → ℕ × RawVec × Memory A → Type ℓ
  HasGap l r (p, v, mem) =
      (tag : ℕ) × (g : Option A) × (rest : List (Option A)) × IsTagged v p tag
      × (mem p ≡ some (filled l ++ (g ∷ (filled r ++ rest))))
      × (suc (length l + length r) + length rest ≡ 2 ^ (tag + 1))

  pub sub-exact :
      (checks : Bool) (l r : List A) → sub checks (length (l ++ r)) (length l) ≡ done (length r)
  unfolding sub
  sub-exact checks l r =
      let le : leb (length l) (length (l ++ r)) ≡ true = ground (arith, length-append l r) in
      let e : length (l ++ r) - length l ≡ length r = omega (arith, length-append l r) in rw (le, e)

  pub write-IsVec :
      (l r : List A) (x : A) (p : ℕ) (v : RawVec) (mem : Memory A)
      → HasGap l r (p, v, mem)
      → Yields (λ mem'. IsVec v mem' (l ++ x ∷ r)) (write mem p (length l) x)
  unfolding write
  write-IsVec l r x p v mem (tag, g, rest, tagged, cells, room) =
      rw
        (
          block-exact mem p (filled l ++ (g ∷ (filled r ++ rest))) cells,
          store_at-exact (filled l) (g ∷ []) (filled r ++ rest) (some x ∷ []) (length l)
              (sym (length-filled l)) refl,
        )
        (yields (
          allocated p tag rest tagged
            (put_self mem p (some (filled l ++ (some x ∷ (filled r ++ rest))))
              ∙ ap some (
                  sym (append_assoc (filled l) (some x ∷ filled r) rest)
                  ∙ ap (λ k. k ++ rest) (sym (filled-append l (x ∷ r)))))
            (omega (arith, length-append l (x ∷ r)))))

  -- A list and one more cell, as a cell and a list.
  turn :
      (xs : List (Option A)) (c : Option A)
      → (g : Option A) × (ys : List (Option A)) × (xs ++ c ∷ [] ≡ g ∷ ys) × (length ys ≡ length xs)
  turn [] c = (c, [], refl, refl)
  turn (x ∷ xs) c = (x, xs ++ c ∷ [], refl, omega (arith, length-append xs (c ∷ [])))

  pub shift-HasGap :
      (checks : Bool) (l r : List A) (p tag : ℕ) (v : RawVec) (mem : Memory A) (c : Option A)
      (rest : List (Option A))
      → IsTagged v p tag
      → mem p ≡ some (filled (l ++ r) ++ (c ∷ rest))
      → length (l ++ r) + suc (length rest) ≡ 2 ^ (tag + 1)
      → Yields (HasGap l r) (shift checks mem v (length l) (length (l ++ r)))
  unfolding shift
  shift-HasGap checks l r p tag v mem c rest tagged cells room =
      let ptr = as_mut_ptr-exact v p tag tagged.at tagged.even tagged.pos tagged.lt tagged.small in
      let regroup : filled (l ++ r) ++ (c ∷ rest) ≡ filled l ++ (filled r ++ (c ∷ rest)) =
        ap (λ k. k ++ (c ∷ rest)) (filled-append l r)
        ∙ append_assoc (filled l) (filled r) (c ∷ rest) in
      let (g, ys, turned, same) = turn (filled r) c in
      let apart : filled l ++ (filled r ++ (c ∷ rest)) ≡ (filled l ++ g ∷ []) ++ (ys ++ rest) =
        ap (λ k. filled l ++ k)
          (sym (append_assoc (filled r) (c ∷ []) rest) ∙ ap (λ k. k ++ rest) turned)
        ∙ sym (append_assoc (filled l) (g ∷ []) (ys ++ rest)) in
      let one : length l + 1 ≡ length (filled l ++ g ∷ []) =
        omega (arith, length-append (filled l) (g ∷ []), length-filled l) in
      let moved : store_at (filled l ++ (filled r ++ (c ∷ rest))) (length l + 1) (filled r)
          ≡ done ((filled l ++ g ∷ []) ++ (filled r ++ rest)) =
        ap (λ k. store_at k (length l + 1) (filled r)) apart
        ∙ store_at-exact (filled l ++ g ∷ []) ys rest (filled r) (length l + 1) one (sym same) in
      rw
        (
          ptr,
          block-exact mem p (filled (l ++ r) ++ (c ∷ rest)) cells,
          sub-exact checks l r,
          regroup,
          cells_at-exact (filled l) (filled r) (c ∷ rest) (length l) (length r)
              (sym (length-filled l)) (sym (length-filled r)),
          moved,
        )
        (yields (
          tag,
          g,
          rest,
          tagged,
          put_self mem p (some ((filled l ++ g ∷ []) ++ (filled r ++ rest)))
              ∙ ap some (append_assoc (filled l) (g ∷ []) (filled r ++ rest)),
          omega (arith, length-append l r),
        ))
