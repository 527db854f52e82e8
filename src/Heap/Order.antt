-- ===== src/Heap/Order.antt =====
-- The heap order of algors-heap/src/heap.rs, and what a comparison closure must satisfy for it.
use algors.Prelude.{
  ℕ, zero, suc, ◌<◌, ◌≡◌, true, List, Perm, Ordering, some, arith, length, get_elem?, get_or,
  get_elem?-get_or, get_elem?-lt, done,
}
use algors.Prelude.Swap.{swapped}
use algors.Heap.{is_le, parent, index, swap}

abbrev pub reverse_ordering : Ordering → Ordering
reverse_ordering Ordering.lt = Ordering.gt
reverse_ordering Ordering.eq = Ordering.eq
reverse_ordering Ordering.gt = Ordering.lt

-- `a` is not greater than `b`.
abbrev pub IsLe {ℓ} : {A : Type ℓ} → (A → A → Ordering) → A → A → Type 0
IsLe cmp a b = is_le (cmp a b) ≡ true

-- What `Ord` documents of `cmp`, without antisymmetry: a total preorder.
pub record IsTotalOrder {ℓ} {A : Type ℓ} (cmp : A → A → Ordering) : Type ℓ where
  pub flip : (a b : A) → cmp b a ≡ reverse_ordering (cmp a b)
  pub trans : (a b c : A) → IsLe cmp a b → IsLe cmp b c → IsLe cmp a c

-- No entry is less than its parent.
abbrev pub IsHeap {ℓ} : {A : Type ℓ} → (A → A → Ordering) → List A → Type ℓ
IsHeap {A} cmp xs =
    (c : ℕ) (p x : A)
    → 0 < c
    → get_elem? xs (parent c) ≡ some p
    → get_elem? xs c ≡ some x
    → IsLe cmp p x

module _ {ℓ} {A : Type ℓ} (cmp : A → A → Ordering) (d : A) where
  abbrev pub LeAt : List A → ℕ → ℕ → Type 0
  LeAt xs i j = IsLe cmp (get_or xs i d) (get_or xs j d)

  -- The heap order read at indices: the default `d` is never read.
  abbrev pub Ordered : List A → Type 0
  Ordered xs = (c : ℕ) → 0 < c → c < length xs → LeAt xs (parent c) c

  pub parent-lt : (c : ℕ) → 0 < c → parent c < c
  unfolding parent
  parent-lt c h = omega arith

  pub Ordered-IsHeap : (xs : List A) → Ordered xs → IsHeap cmp xs
  Ordered-IsHeap xs o c p x pos hp hx =
      let lt = get_elem?-lt xs c hx in
      ground (arith, o c, parent-lt c, get_elem?-get_or xs c d, get_elem?-get_or xs (parent c) d)

  pub IsHeap-Ordered : (xs : List A) → IsHeap cmp xs → Ordered xs
  IsHeap-Ordered xs h c pos lt =
      h c (get_or xs (parent c) d) (get_or xs c d) pos
        (get_elem?-get_or xs (parent c) d (omega (arith, parent-lt c pos)))
        (get_elem?-get_or xs c d lt)

  -- A heap again, of the same entries.
  abbrev pub Restored : List A → List A → Type ℓ
  Restored xs ys = IsHeap cmp ys × Perm ys xs

  module _ (order : IsTotalOrder cmp) where
    root_le_below :
        (fuel : ℕ) (xs : List A) (i : ℕ) → Ordered xs → i < fuel → i < length xs → LeAt xs 0 i
    root_le_below zero xs i o f lt = absurd (omega arith)
    root_le_below (suc fuel) xs zero o f lt =
        ground (arith, order.flip (get_or xs 0 d) (get_or xs 0 d))
    root_le_below (suc fuel) xs (suc i) o f lt =
        let below = parent-lt (suc i) (omega arith) in
        order.trans _ _ _ (root_le_below fuel xs (parent (suc i)) o (omega arith) (omega arith))
          (o (suc i) (omega arith) lt)

    -- The root is not greater than any entry.
    pub root_le : (xs : List A) (i : ℕ) → Ordered xs → i < length xs → LeAt xs 0 i
    root_le xs i o lt = root_le_below (suc i) xs i o (omega arith) lt

module _ {ℓ} {A : Type ℓ} (d : A) where
  pub index_lem : (xs : List A) (i : ℕ) → i < length xs → index xs i ≡ done (get_or xs i d)
  unfolding index
  index_lem xs i h = rw (get_elem?-get_or xs i d h)

  pub swap_lem :
      (xs : List A) (i j : ℕ)
      → i < length xs
      → j < length xs
      → swap xs i j ≡ done (swapped d xs i j)
  unfolding swap
  swap_lem xs i j hi hj = rw (index_lem xs i hi, index_lem xs j hj)
