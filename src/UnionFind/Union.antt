-- ===== src/UnionFind/Union.antt =====
-- `union` of algors-union-find/src/union_find.rs joins two sets of the partition and keeps all others.
use algors.Prelude.{
  ℕ, suc, ◌+◌, ◌-◌, ◌<◌, ◌≡◌, ◌≢◌, refl, sym, ap, subst, ◌∙◌, inl, inr, Bool, true, false, not,
  ◌&&◌, ◌||◌, Bool-cases, List, arith, ◌==◌, if◌then◌else◌, length, length-set, get_or-set,
  get_elem?, set, ℤ, pos, negsuc, leb_ℤ, Outcome, done, ◌>>=◌, or_panic, Yields, yields,
  Yields-mono, Yields-bind,
}
use algors.UnionFind.{UnionFind, link, decrement, union}
use algors.UnionFind.Forest.{IsForest, Represents, entry, count_roots}
use algors.UnionFind.Find.{entry-read, root-top, find-root}
use algors.UnionFind.Merge.{joined, roots-joined, merged}

-- `root'` names the sets of the partition in which the sets of `i` and `j` are one, and all others are
-- as `root` has them.
abbrev pub Joins : (ℕ → ℕ) → ℕ → ℕ → (ℕ → ℕ) → Type 0
Joins root i j root' =
    (x y : ℕ)
    → (root' x == root' y) ≡ (
        (root x == root y)
        || (((root x == root i) && (root y == root j))
            || ((root x == root j) && (root y == root i))))

-- What `union` of `i` and `j` returns and leaves: whether the sets were different, as many elements,
-- and the two sets as one.
abbrev pub IsUnion : UnionFind → (ℕ → ℕ) → ℕ → ℕ → Bool × UnionFind → Type 0
IsUnion u root i j (fresh, v) =
    (fresh ≡ not (root j == root i))
    × (length v.entries ≡ length u.entries)
    × ((root' : ℕ → ℕ) × Represents v root' × Joins root i j root')

joined-Joins : (root : ℕ → ℕ) (i j : ℕ) → Joins root i j (joined root (root i) (root j))
joined-Joins root i j x y = ground arith

joined-Joins_flipped : (root : ℕ → ℕ) (i j : ℕ) → Joins root i j (joined root (root j) (root i))
joined-Joins_flipped root i j x y = ground arith

same-Joins : (root : ℕ → ℕ) (i j : ℕ) → root j ≡ root i → Joins root i j root
same-Joins root i j e x y = ground arith

link-entries :
    (xs : List ℤ) (w l a b : ℕ)
    → w < length xs
    → l < length xs
    → w ≢ l
    → entry xs w ≡ negsuc a
    → entry xs l ≡ negsuc b
    → Yields
        (λ ys.
          (length ys ≡ length xs)
          × ((i : ℕ)
              → entry ys i
                ≡ (if l == i then pos w else if w == i then negsuc (suc (a + b)) else entry xs i)))
        (link xs w l)
unfolding link
link-entries xs w l a b w_lt l_lt apart at_w at_l =
    let sum = negsuc (suc (a + b)) in
    let size : length (set xs w sum) ≡ length xs = length-set xs w sum in
    rw (entry-read xs w w_lt, entry-read xs l l_lt, at_w, at_l)
      (yields (
        length-set (set xs w sum) l (pos w) ∙ size,
        λ i.
            rw⁻¹ (get_or-set xs w i sum (negsuc 0) w_lt)
              (get_or-set (set xs w sum) l i (pos w) (negsuc 0) (rw size l_lt)),
      ))

module _ (u : UnionFind) (root : ℕ → ℕ) (rep : Represents u root) where
  -- A root is its own root.
  idempotent : (i : ℕ) → i < length u.entries → root (root i) ≡ root i
  idempotent i lt =
      let (k, e) = root-top (length u.entries) (entry u.entries) root rep.0 i lt in
      (rep.0.top (root i) k (rep.0.inside i lt) e).0

  -- What `union` does with two roots.
  merge-Represents :
      (w l : ℕ)
      → w < length u.entries
      → l < length u.entries
      → w ≢ l
      → root w ≡ w
      → root l ≡ l
      → Yields
          (λ (fresh, v).
            (fresh ≡ true) × (length v.entries ≡ length u.entries) × Represents v (joined root w l))
          (link u.entries w l >>= λ xs.
            decrement u.num_sets >>= λ n. done (true, record { entries = xs; num_sets = n }))
  unfolding decrement
  merge-Represents w l w_lt l_lt apart root_w root_l =
      let n = length u.entries in
      let (a, top_w) = root-top n (entry u.entries) root rep.0 w w_lt in
      let (b, top_l) = root-top n (entry u.entries) root rep.0 l l_lt in
      let at_w = ap (entry u.entries) (sym root_w) ∙ top_w in
      let at_l = ap (entry u.entries) (sym root_l) ∙ top_l in
      let fewer = roots-joined n (entry u.entries) root rep.0 w l a b w_lt l_lt apart at_w at_l in
      let some_set : (u.num_sets == 0) ≡ false = ground (arith, rep.1, fewer) in
      Yields-bind (link-entries u.entries w l a b w_lt l_lt apart at_w at_l) λ ys (size, change).
        let forest =
          merged n (entry u.entries) root rep.0 w l a b w_lt l_lt apart at_w at_l (entry ys)
            change in
        rw some_set (
          yields {a = (true, record { entries = ys; num_sets = u.num_sets - 1 })} (
            refl,
            size,
            (
              subst (λ k. IsForest k (entry ys) (joined root w l)) (sym size) forest,
              omega (arith, rep.1, fewer, ap (λ k. count_roots k (joined root w l)) size),
            ),
          ))

  -- The rest of `union`, once both roots are found.
  finish : ℕ → ℕ → Outcome (Bool × UnionFind)
  finish root_i root_j =
      if root_j == root_i
      then done (false, u)
      else (or_panic (get_elem? u.entries root_j) >>= λ size_j.
          or_panic (get_elem? u.entries root_i) >>= λ size_i.
          (if leb_ℤ size_j size_i
            then link u.entries root_j root_i
            else link u.entries root_i root_j)
          >>= λ xs.
              decrement u.num_sets >>= λ n. done (true, record { entries = xs; num_sets = n }))

  finish-Joins :
      (i j : ℕ)
      → i < length u.entries
      → j < length u.entries
      → Yields (IsUnion u root i j) (finish (root i) (root j))
  unfolding finish
  finish-Joins i j i_lt j_lt = elim (Bool-cases (root j == root i)) [
    | inl same ↦
        let e : root j ≡ root i = ground arith in
        rw same
          (yields {a = (false, u)} (ap not (sym same), refl, (root, rep, same-Joins root i j e)))
    | inr other ↦
        let in_i = rep.0.inside i i_lt in
        let in_j = rep.0.inside j j_lt in
        rw (other, entry-read u.entries (root j) in_j, entry-read u.entries (root i) in_i)
          (elim (Bool-cases (leb_ℤ (entry u.entries (root j)) (entry u.entries (root i)))) [
            | inl le ↦ rw le (
                Yields-mono
                  (λ (fresh, v) (is_fresh, size, rep'). (
                    is_fresh ∙ ap not (sym other),
                    size,
                    (joined root (root j) (root i), rep', joined-Joins_flipped root i j),
                  ))
                  (merge-Represents (root j) (root i) in_j in_i (λ e. ground arith)
                    (idempotent j j_lt) (idempotent i i_lt)))
            | inr gt ↦ rw gt (
                Yields-mono
                  (λ (fresh, v) (is_fresh, size, rep'). (
                    is_fresh ∙ ap not (sym other),
                    size,
                    (joined root (root i) (root j), rep', joined-Joins root i j),
                  ))
                  (merge-Represents (root i) (root j) in_i in_j (λ e. ground arith)
                    (idempotent i i_lt) (idempotent j j_lt)))
          ])
  ]

-- On a structure that stands for a partition, `union` of two elements ends. It returns whether they
-- were in different sets, and leaves a structure for the partition in which the two sets are one.
pub union-Joins :
    (u : UnionFind) (root : ℕ → ℕ) (i j : ℕ)
    → Represents u root
    → i < length u.entries
    → j < length u.entries
    → Yields (IsUnion u root i j) (union u i j)
unfolding union finish
union-Joins u root i j rep i_lt j_lt =
    Yields-bind (find-root u root i rep i_lt) λ (root_i, u_i) (at_i, size_i, rep_i).
      Yields-bind (find-root u_i root j rep_i (rw size_i j_lt))
        λ (root_j, u_j) (at_j, size_j, rep_j).
          Yields-mono {P = IsUnion u_j root i j}
            (λ w (is_fresh, size, joins). (is_fresh, size ∙ size_j ∙ size_i, joins))
            (rw (at_i, at_j)
              (finish-Joins u_j root rep_j i j (rw (size_j, size_i) i_lt)
                (rw (size_j, size_i) j_lt)))
