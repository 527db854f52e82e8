-- ===== src/Trie/RawVec/Correct/Free.antt =====
-- `deallocate` of `BoundedRawVec`, algors-trie/src/util.rs, and all operations that take elements out.
use mathlib.Core.List.{append_assoc}
use algors.Prelude.{
  ℕ, ◌+◌, ◌≡◌, ◌⊎◌, refl, sym, ap, ◌∙◌, inl, inr, List, [], ◌∷◌, ◌++◌, Option, none, true, false,
  arith, done, ◌==◌, length, length-append, get_elem?, Yields, yields,
}
use algors.Trie.RawVec.{RawVec, Memory, as_mut_ptr, put, get, remove, drop_all, deallocate}
use algors.Trie.RawVec.Pointer.{as_mut_ptr-exact}
use algors.Trie.RawVec.Correct.{
  filled, get_elem?-middle, put_self, block-exact, IsVec, unallocated, allocated,
}
use algors.Trie.RawVec.Correct.Grow.{as_mut_ptr-none}
use algors.Trie.RawVec.Correct.Remove.{read-filled, get-get_elem?, Removes, remove-Removes}

module _ {ℓ} {A : Type ℓ} (mem : Memory A) (v : RawVec) where
  drop_all-done :
      (l r : List A) (rest : List (Option A))
      → drop_all (filled (l ++ r) ++ rest) (length r) (length l) ≡ done r
  unfolding drop_all
  drop_all-done l [] rest = refl
  drop_all-done l (x ∷ r) rest =
      let next : length l + 1 ≡ length (l ++ x ∷ []) = omega (arith, length-append l (x ∷ [])) in
      let onward : drop_all (filled (l ++ x ∷ r) ++ rest) (length r) (length (l ++ x ∷ []))
          ≡ done r =
        ap (λ k. drop_all (filled k ++ rest) (length r) (length (l ++ x ∷ [])))
          (sym (append_assoc l (x ∷ []) r))
        ∙ drop_all-done (l ++ x ∷ []) r rest in
      rw (read-filled (l ++ x ∷ r) rest (length l) x (get_elem?-middle l r x), next, onward)

  -- What `deallocate` comes to: the elements are dropped, and no block is left.
  abbrev pub Frees : List A → List A × RawVec × Memory A → Type ℓ
  Frees xs (dropped, v', mem') =
      (dropped ≡ xs) × (v'.tagged ≡ 0) × ((as_mut_ptr v ≡ 0) ⊎ (mem' (as_mut_ptr v) ≡ none))

  deallocate-Frees :
      (xs : List A) → IsVec v mem xs → Yields (Frees xs) (deallocate mem v (length xs))
  unfolding deallocate
  deallocate-Frees xs (unallocated null empty) =
      let test : (as_mut_ptr v == 0) ≡ true = let ptr = as_mut_ptr-none v null in ground arith in
      rw test (yields {a = ([], v, mem)} (sym empty, null, inl (as_mut_ptr-none v null)))
  deallocate-Frees xs (allocated p tag rest tagged cells size) =
      let ptr = as_mut_ptr-exact v p tag tagged.at tagged.even tagged.pos tagged.lt tagged.small in
      let test : (p == 0) ≡ false = let pos = tagged.pos in ground arith in
      rw (ptr, test, block-exact mem p (filled xs ++ rest) cells, drop_all-done [] xs rest)
        (yields {a = (xs, record { tagged = 0 }, put mem p none)}
          (refl, refl, inr (ap (put mem p none) ptr ∙ put_self mem p none)))

  -- On a vector of the elements `xs`, with their number as the length: `get` ends with the element at the
  -- index, if there is one; `remove` ends with that, and leaves a vector of the list without it; and
  -- `deallocate` drops the elements, each once and in their order, and leaves a null pointer and no block.
  -- No cell is read out of bounds or before it was written.
  pub list_operations :
      (xs : List A) (i : ℕ)
      → IsVec v mem xs
      → (get mem v i (length xs) ≡ done (get_elem? xs i))
        × Yields (Removes mem v xs i) (remove mem v i (length xs))
        × Yields (Frees xs) (deallocate mem v (length xs))
  list_operations xs i vec =
      (get-get_elem? mem v xs i vec, remove-Removes mem v xs i vec, deallocate-Frees xs vec)
