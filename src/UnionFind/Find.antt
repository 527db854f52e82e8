-- ===== src/UnionFind/Find.antt =====
-- `find` and `size_of` of algors-union-find/src/union_find.rs: both loops end at the root, and
-- flattening the path leaves the partition as it is.
use algors.Prelude.{
  ℕ, zero, suc, ◌+◌, ◌<◌, ◌≤◌, ◌≡◌, refl, sym, ap, subst, ◌∙◌, inl, inr, Bool-cases, List, arith,
  ◌==◌, if◌then◌else◌, length, length-set, get_or-set, get_elem?, get_elem?-get_or, get_elem?-none,
  set, ℤ, pos, negsuc, ℤ-cases, done, panic, Yields, yields, Yields-mono, Yields-bind, some,
}
use algors.UnionFind.{UnionFind, root_loop, flatten_loop, find, size_of}
use algors.UnionFind.Forest.{IsForest, Represents, entry, class_size, class_size-le, count_roots}

pub entry-read : (xs : List ℤ) (i : ℕ) → i < length xs → get_elem? xs i ≡ some (entry xs i)
entry-read xs i lt = get_elem?-get_or xs i (negsuc 0) lt

pub pos-inj : {a b : ℕ} → pos a ≡ pos b → a ≡ b
pos-inj e = cc

module _ (n : ℕ) (at : ℕ → ℤ) (root : ℕ → ℕ) (f : IsForest n at root) where
  -- The root of an element is a root, by way of the path.
  root-top_within : (fuel i : ℕ) → i < n → f.depth i < fuel → (k : ℕ) × (at (root i) ≡ negsuc k)
  root-top_within zero i lt enough = absurd (omega arith)
  root-top_within (suc fuel) i lt enough = elim (ℤ-cases (at i)) [
    | inl (p, e) ↦
        let (p_lt, deeper, same_root) = f.up i p lt e in
        subst (λ r. (k : ℕ) × (at r ≡ negsuc k)) same_root
          (root-top_within fuel p p_lt (omega arith))
    | inr (k, e) ↦ (k, ap at (f.top i k lt e).0 ∙ e)
  ]

  pub root-top : (i : ℕ) → i < n → (k : ℕ) × (at (root i) ≡ negsuc k)
  root-top i lt = root-top_within (suc (f.depth i)) i lt (omega arith)

  -- No path is longer than the number of elements.
  pub depth-lt : (i : ℕ) → i < n → f.depth i < n
  depth-lt i lt = omega (arith, f.shallow i lt, class_size-le n root (root i))

  -- A parent may be replaced by the root.
  pub redirected :
      (at' : ℕ → ℤ) (cur next : ℕ)
      → cur < n
      → at cur ≡ pos next
      → ((i : ℕ) → at' i ≡ (if cur == i then pos (root cur) else at i))
      → (f' : IsForest n at' root) × ((i : ℕ) → f'.depth i ≡ f.depth i)
  redirected at' cur next cur_lt is_child change = (
    record {
      depth = f.depth;
      up = λ i p lt e. elim (Bool-cases (cur == i)) [
        | inl here ↦
            let (k, at_root) = root-top cur cur_lt in
            let (p_lt, deeper, same_root) = f.up cur next cur_lt is_child in
            let (self, flat, size) = f.top (root cur) k (f.inside cur cur_lt) at_root in
            let to_root : root cur ≡ p = pos-inj (sym (rw here at (change i)) ∙ e) in
            let here_eq : cur ≡ i = ground arith in
            subst (λ q. (q < n) × (f.depth q < f.depth i) × (root q ≡ root i)) to_root
              (subst
                (λ j.
                  (root cur < n) × (f.depth (root cur) < f.depth j) × (root (root cur) ≡ root j))
                here_eq (f.inside cur cur_lt, omega arith, self))
        | inr there ↦ f.up i p lt (sym (rw there at (change i)) ∙ e)
      ];
      top = λ i k lt e. elim (Bool-cases (cur == i)) [
        | inl here ↦ let clash : pos (root cur) ≡ negsuc k = sym (rw here at (change i)) ∙ e in cc
        | inr there ↦ f.top i k lt (sym (rw there at (change i)) ∙ e)
      ];
      shallow = f.shallow;
      inside = f.inside;
      outside = f.outside;
    },
    λ i. refl,
  )

root_loop-root :
    (fuel : ℕ) (xs : List ℤ) (root : ℕ → ℕ) (i : ℕ) (f : IsForest (length xs) (entry xs) root)
    → i < length xs
    → f.depth i < fuel
    → root_loop fuel xs i ≡ done (root i)
unfolding root_loop
root_loop-root zero xs root i f lt enough = absurd (omega arith)
root_loop-root (suc fuel) xs root i f lt enough = elim (ℤ-cases (entry xs i)) [
  | inl (p, e) ↦
      let (p_lt, deeper, same_root) = f.up i p lt e in
      rw (entry-read xs i lt, e)
        (root_loop-root fuel xs root p f p_lt (omega arith) ∙ ap done same_root)
  | inr (k, e) ↦ rw (entry-read xs i lt, e) (ap done (sym (f.top i k lt e).0))
]

flatten_loop-keeps :
    (fuel : ℕ) (xs : List ℤ) (root : ℕ → ℕ) (cur r : ℕ) (f : IsForest (length xs) (entry xs) root)
    → cur < length xs
    → f.depth cur < fuel
    → root cur ≡ r
    → Yields
        (λ ys. (length ys ≡ length xs) × IsForest (length ys) (entry ys) root)
        (flatten_loop fuel xs cur r)
unfolding flatten_loop
flatten_loop-keeps zero xs root cur r f lt enough e = absurd (omega arith)
flatten_loop-keeps (suc fuel) xs root cur r f lt enough same = elim (ℤ-cases (entry xs cur)) [
  | inl (p, e) ↦
      let (p_lt, deeper, same_root) = f.up cur p lt e in
      let ys = set xs cur (pos r) in
      let size : length ys ≡ length xs = length-set xs cur (pos r) in
      let change : (i : ℕ) → entry ys i ≡ (if cur == i then pos (root cur) else entry xs i) =
        λ i. rw same (get_or-set xs cur i (pos r) (negsuc 0) lt) in
      let (g, same_depth) : (g : IsForest (length ys) (entry ys) root) × ((i : ℕ)
            → g.depth i ≡ f.depth i) =
        subst (λ k. (g : IsForest k (entry ys) root) × ((i : ℕ) → g.depth i ≡ f.depth i)) (sym size)
          (redirected (length xs) (entry xs) root f (entry ys) cur p lt e change) in
      rw (entry-read xs cur lt, e)
        (Yields-mono (λ zs (size', g'). (size' ∙ size, g'))
          (flatten_loop-keeps fuel ys root p r g (rw size p_lt) (omega (arith, same_depth p))
            (same_root ∙ same)))
  | inr (k, e) ↦ rw (entry-read xs cur lt, e) (yields (refl, f))
]

-- On a structure that stands for a partition, `find` of an element ends with its root, and leaves a
-- structure for the same partition with as many elements.
pub find-root :
    (u : UnionFind) (root : ℕ → ℕ) (i : ℕ)
    → Represents u root
    → i < length u.entries
    → Yields
        (λ (r, v). (r ≡ root i) × (length v.entries ≡ length u.entries) × Represents v root)
        (find u i)
unfolding find
find-root u root i (f, count) lt =
    let n = length u.entries in
    rw
      (root_loop-root (n + 1) u.entries root i f lt
        (omega (arith, depth-lt n (entry u.entries) root f i lt)))
      (Yields-bind
        (flatten_loop-keeps (n + 1) u.entries root i (root i) f lt
          (omega (arith, depth-lt n (entry u.entries) root f i lt)) refl)
        λ ys (size, f').
          yields {a = (root i, record u { entries = ys })}
            (refl, size, (f', count ∙ ap (λ k. count_roots k root) (sym size))))

-- `find` of a number that is no element panics.
pub find-outside : (u : UnionFind) (i : ℕ) → length u.entries ≤ i → find u i ≡ panic
unfolding find root_loop
find-outside u i le =
    let more : length u.entries + 1 ≡ suc (length u.entries) = omega arith in
    rw (more, get_elem?-none u.entries i le)

-- On a structure that stands for a partition, `size_of` an element ends with the number of the
-- elements that have the same root, and leaves a structure for the same partition.
pub size_of-class_size :
    (u : UnionFind) (root : ℕ → ℕ) (i : ℕ)
    → Represents u root
    → i < length u.entries
    → Yields
        (λ (s, v). (s ≡ class_size (length u.entries) root (root i)) × Represents v root)
        (size_of u i)
unfolding size_of
size_of-class_size u root i rep lt =
    Yields-bind (find-root u root i rep lt) λ (r, v) (at_root, size, rep').
      let lt_v : i < length v.entries = rw size lt in
      let inside = rep'.0.inside i lt_v in
      let (k, e) = root-top (length v.entries) (entry v.entries) root rep'.0 i lt_v in
      let (self, flat, counted) = rep'.0.top (root i) k inside e in
      rw (at_root, entry-read v.entries (root i) inside, e)
        (yields (counted ∙ ap (λ n. class_size n root (root i)) size, rep'))
