-- ===== src/UnionFind/Merge.antt =====
-- A root of the forest of algors-union-find/src/union_find.rs becomes a child of another.
use algors.Prelude.{
  ℕ, suc, ◌+◌, ◌<◌, ◌≡◌, ◌≢◌, ◌⊎◌, refl, sym, subst, ◌∙◌, inl, inr, Bool-cases, arith, ◌==◌,
  if◌then◌else◌, ℤ, pos, negsuc,
}
use algors.Prelude.Bits.{sum_below-ext, sum_below-plus}
use algors.UnionFind.Forest.{IsForest, class_size, count_roots, sum_below-one, negsuc-inj}
use algors.UnionFind.Find.{pos-inj}

-- The roots once `loser` has become a child of `winner`.
abbrev pub joined : (ℕ → ℕ) → ℕ → ℕ → ℕ → ℕ
joined root winner loser x = if root x == loser then winner else root x

module _ (n : ℕ) (at : ℕ → ℤ) (root : ℕ → ℕ) (f : IsForest n at root) (w l a b : ℕ) (w_lt : w < n)
    (l_lt : l < n) (apart : w ≢ l) (at_w : at w ≡ negsuc a) (at_l : at l ≡ negsuc b) where
  root_w : root w ≡ w
  root_w = (f.top w a w_lt at_w).0

  root_l : root l ≡ l
  root_l = (f.top l b l_lt at_l).0

  class-winner : class_size n (joined root w l) w ≡ class_size n root w + class_size n root l
  unfolding class_size
  class-winner =
      sum_below-ext n _ _ (λ j lt. ground arith)
      ∙ sum_below-plus n (λ j. if root j == w then 1 else 0) (λ j. if root j == l then 1 else 0)

  class-other : (r : ℕ) → r ≢ w → r ≢ l → class_size n (joined root w l) r ≡ class_size n root r
  unfolding class_size
  class-other r not_w not_l = sum_below-ext n _ _ λ j lt. ground arith

  pub roots-joined : count_roots n root ≡ count_roots n (joined root w l) + 1
  unfolding count_roots
  roots-joined = omega (
    arith,
    sum_below-ext n (λ j. if root j == j then 1 else 0)
        (λ j. (if joined root w l j == j then 1 else 0) + (if j == l then 1 else 0)) one_less,
    sum_below-plus n (λ j. if joined root w l j == j then 1 else 0) (λ j. if j == l then 1 else 0),
    sum_below-one n l l_lt,
  )
    where
      one_less :
          (j : ℕ)
          → j < n
          → (if root j == j then 1 else 0)
            ≡ (if joined root w l j == j then 1 else 0) + (if j == l then 1 else 0)
      one_less j lt = elim (Bool-cases (j == l)) [
        | inl e ↦
            let here : j ≡ l = ground arith in
            subst
              (λ x.
                (if root x == x then 1 else 0)
                ≡ (if joined root w l x == x then 1 else 0) + (if x == l then 1 else 0))
              (sym here) (ground (arith, root_l))
        | inr there ↦ elim (Bool-cases (j == w)) [
          | inl e ↦
              let here : j ≡ w = ground arith in
              subst
                (λ x.
                  (if root x == x then 1 else 0)
                  ≡ (if joined root w l x == x then 1 else 0) + (if x == l then 1 else 0))
                (sym here) (ground (arith, root_w))
          | inr other ↦ ground arith
        ]
      ]

  module _ (at' : ℕ → ℤ)
      (change : (i : ℕ)
        → at' i ≡ (if l == i then pos w else if w == i then negsuc (suc (a + b)) else at i)) where
    -- The three kinds of entries after the sets are joined.
    kinds :
        (i : ℕ)
        → ((i ≡ l) × (at' i ≡ pos w))
          ⊎ (((i ≡ w) × (at' i ≡ negsuc (suc (a + b)))) ⊎ ((i ≢ l) × (i ≢ w) × (at' i ≡ at i)))
    kinds i = elim (Bool-cases (l == i)) [
      | inl e ↦ inl (ground arith, rw e at (change i))
      | inr ne ↦ elim (Bool-cases (w == i)) [
        | inl e ↦ inr (inl (ground arith, rw (ne, e) at (change i)))
        | inr ne' ↦ inr (inr ((λ p. ground arith), (λ p. ground arith), rw (ne, ne') at (change i)))
      ]
    ]

    -- The depth counts the new edge.
    deeper : ℕ → ℕ
    deeper i = if root i == l then f.depth i + 1 else f.depth i

    merged-up :
        (i p : ℕ)
        → i < n
        → at' i ≡ pos p
        → (p < n) × (deeper p < deeper i) × (joined root w l p ≡ joined root w l i)
    unfolding deeper
    merged-up i p lt e = elim (kinds i) [
      | inl (here, child) ↦
          let to_w : w ≡ p = pos-inj (sym child ∙ e) in
          subst (λ q. (q < n) × (deeper q < deeper i) × (joined root w l q ≡ joined root w l i))
            to_w
            (subst (λ j. (w < n) × (deeper w < deeper j) × (joined root w l w ≡ joined root w l j))
              (sym here)
              (
                w_lt,
                ground (arith, root_w, root_l, f.top w a w_lt at_w),
                ground (arith, root_w, root_l),
              ))
      | inr (inl (here, top)) ↦ let clash : negsuc (suc (a + b)) ≡ pos p = sym top ∙ e in cc
      | inr (inr (not_l, not_w, same)) ↦
          let (p_lt, below, same_root) = f.up i p lt (sym same ∙ e) in
          rw same_root (p_lt, ground arith, refl)
    ]

    merged-top :
        (i k : ℕ)
        → i < n
        → at' i ≡ negsuc k
        → (joined root w l i ≡ i) × (deeper i ≡ 0) × (suc k ≡ class_size n (joined root w l) i)
    unfolding deeper
    merged-top i k lt e = elim (kinds i) [
      | inl (here, child) ↦ let clash : pos w ≡ negsuc k = sym child ∙ e in cc
      | inr (inl (here, top)) ↦
          let size : suc (a + b) ≡ k = negsuc-inj (sym top ∙ e) in
          subst
            (λ j.
              (joined root w l j ≡ j) × (deeper j ≡ 0) × (suc k ≡ class_size n (joined root w l) j))
            (sym here)
            (
              ground (arith, root_w),
              ground (arith, root_w, f.top w a w_lt at_w),
              omega (arith, class-winner, size, f.top w a w_lt at_w, f.top l b l_lt at_l),
            )
      | inr (inr (not_l, not_w, same)) ↦
          let (self, flat, size) = f.top i k lt (sym same ∙ e) in
          (ground arith, ground arith, size ∙ sym (class-other i not_w not_l))
    ]

    merged-shallow : (i : ℕ) → i < n → deeper i < class_size n (joined root w l) (joined root w l i)
    unfolding deeper
    merged-shallow i lt = elim (Bool-cases (root i == l)) [
      | inl e ↦
          let to_w : joined root w l i ≡ w = ground arith in
          let loser : root i ≡ l = ground arith in
          let below = subst (λ r. f.depth i < class_size n root r) loser (f.shallow i lt) in
          rw to_w (ground (arith, class-winner, below, f.top w a w_lt at_w))
      | inr ne ↦
          let kept : joined root w l i ≡ root i = ground arith in
          let flat : deeper i ≡ f.depth i = ground arith in
          rw (kept, flat)
            (elim (Bool-cases (root i == w)) [
              | inl e ↦
                  let winner : root i ≡ w = ground arith in
                  subst (λ r. f.depth i < class_size n (joined root w l) r) (sym winner)
                    (omega (
                      arith,
                      class-winner,
                      subst (λ r. f.depth i < class_size n root r) winner (f.shallow i lt),
                    ))
              | inr other ↦
                  rw (class-other (root i) (λ p. ground arith) (λ p. ground arith)) (f.shallow i lt)
            ])
    ]

    pub merged : IsForest n at' (joined root w l)
    unfolding deeper
    merged = record {
      depth = deeper;
      up = merged-up;
      top = merged-top;
      shallow = merged-shallow;
      inside = λ i lt. ground (arith, f.inside i lt);
      outside = λ i le. ground (arith, f.outside i le);
    }
