-- ===== src/UnionFind/Forest.antt =====
-- What the entries of algors-union-find/src/union_find.rs stand for: a partition of the elements, given
-- by the root of each.
use algors.Prelude.{
  ℕ, zero, suc, ◌+◌, ◌<◌, ◌≤◌, ◌≡◌, ◌⊎◌, refl, true, sym, subst, ap, ◌∙◌, inl, inr, List, [], ◌∷◌,
  ◌++◌, arith, ◌==◌, if◌then◌else◌, Bool-cases, length, get_or, ℤ, pos, negsuc, replicate,
  length-replicate, length-append, get_or-append_left, get_or-append_right,
}
use algors.Prelude.Bits.{sum_below, sum_below-zero}
use algors.UnionFind.{UnionFind, new, with_capacity, add}

abbrev pub entry : List ℤ → ℕ → ℤ
entry xs i = get_or xs i (negsuc 0)

-- How many of the first `n` elements have the root `r`.
unfoldable pub class_size : ℕ → (ℕ → ℕ) → ℕ → ℕ
class_size n root r = sum_below n (λ j. if root j == r then 1 else 0)

-- How many of the first `n` elements are roots.
unfoldable pub count_roots : ℕ → (ℕ → ℕ) → ℕ
count_roots n root = sum_below n (λ j. if root j == j then 1 else 0)

-- Each of `n` elements lies on a path of parents to its root, a root holds the size of its set, and
-- no path is as long as its set is large.
pub record IsForest (n : ℕ) (at : ℕ → ℤ) (root : ℕ → ℕ) : Type 0 where
  pub depth : ℕ → ℕ
  pub up : (i p : ℕ) → i < n → at i ≡ pos p → (p < n) × (depth p < depth i) × (root p ≡ root i)
  pub top :
      (i k : ℕ)
      → i < n
      → at i ≡ negsuc k
      → (root i ≡ i) × (depth i ≡ 0) × (suc k ≡ class_size n root i)
  pub shallow : (i : ℕ) → i < n → depth i < class_size n root (root i)
  pub inside : (i : ℕ) → i < n → root i < n
  pub outside : (i : ℕ) → n ≤ i → (root i ≡ i) × (depth i ≡ 0)

-- The structure stands for the partition in which `root` names the set of an element.
abbrev pub Represents : UnionFind → (ℕ → ℕ) → Type 0
Represents u root =
    IsForest (length u.entries) (entry u.entries) root
    × (u.num_sets ≡ count_roots (length u.entries) root)

pub sum_below-one : (n i : ℕ) → i < n → sum_below n (λ j. if j == i then 1 else 0) ≡ 1
unfolding sum_below
sum_below-one zero i h = absurd (omega arith)
sum_below-one (suc n) i h = elim (Bool-cases (n == i)) [
  | inl e ↦ ground (arith, sum_below-zero n (λ j. if j == i then 1 else 0) (λ j lt. ground arith))
  | inr ne ↦ ground (arith, sum_below-one n i (ground arith))
]

sum_below-ones : (n : ℕ) (f : ℕ → ℕ) → ((j : ℕ) → j < n → f j ≡ 1) → sum_below n f ≡ n
unfolding sum_below
sum_below-ones zero f h = refl
sum_below-ones (suc n) f h =
    omega (arith, sum_below-ones n f (λ j lt. h j (omega arith)), h n (omega arith))

pub class_size-le : (n : ℕ) (root : ℕ → ℕ) (r : ℕ) → class_size n root r ≤ n
unfolding class_size sum_below
class_size-le zero root r = omega arith
class_size-le (suc n) root r = ground (arith, class_size-le n root r)

class_size-none :
    (n : ℕ) (root : ℕ → ℕ) (r : ℕ) → ((j : ℕ) → j < n → root j < r) → class_size n root r ≡ 0
unfolding class_size
class_size-none n root r below = sum_below-zero n _ λ j lt. ground (arith, below j lt)

pub negsuc-inj : {a b : ℕ} → negsuc a ≡ negsuc b → a ≡ b
negsuc-inj e = cc

singletons : (n : ℕ) (at : ℕ → ℤ) → ((i : ℕ) → at i ≡ negsuc 0) → IsForest n at (λ i. i)
unfolding class_size
singletons n at alone = record {
  depth = λ i. 0;
  up = λ i p lt e. let clash : negsuc 0 ≡ pos p = sym (alone i) ∙ e in cc;
  top = λ i k lt e.
      let zero_k : 0 ≡ k = negsuc-inj (sym (alone i) ∙ e) in
      (refl, refl, omega (arith, sum_below-one n i lt));
  shallow = λ i lt. omega (arith, sum_below-one n i lt);
  inside = λ i lt. lt;
  outside = λ i le. (refl, refl);
}

-- `new` stands for the partition of `n` elements into singletons.
pub new-Represents : (n : ℕ) → Represents (new n) (λ i. i)
unfolding new count_roots
new-Represents n = (
  singletons (length (replicate n (negsuc 0))) (entry (replicate n (negsuc 0))) (replicated n),
  omega (
    arith,
    length-replicate n (negsuc 0),
    sum_below-ones (length (replicate n (negsuc 0))) (λ j. if j == j then 1 else 0)
        (λ j lt. ground arith),
  ),
)
  where
    replicated : (n i : ℕ) → entry (replicate n (negsuc 0)) i ≡ negsuc 0
    replicated zero i = refl
    replicated (suc n) zero = refl
    replicated (suc n) (suc i) = replicated n i

-- `with_capacity` stands for the empty partition.
pub with_capacity-Represents : (n : ℕ) → Represents (with_capacity n) (λ i. i)
unfolding with_capacity new
with_capacity-Represents n = new-Represents 0

pub lt_suc-cases : (i n : ℕ) → i < suc n → (i < n) ⊎ (i ≡ n)
lt_suc-cases i n lt = ground arith

module _ (n : ℕ) (at at' : ℕ → ℤ) (root : ℕ → ℕ) (f : IsForest n at root) where
  one_more : (r : ℕ) → class_size (suc n) root r ≡ class_size n root r + (if n == r then 1 else 0)
  unfolding class_size sum_below
  one_more r = rw (f.outside n (omega arith)).0

  added : ((i : ℕ) → i < n → at' i ≡ at i) → at' n ≡ negsuc 0 → IsForest (suc n) at' root
  added old fresh = record {
    depth = f.depth;
    up = λ i p lt e. elim (lt_suc-cases i n lt) [
      | inl below ↦
          let (p_lt, deeper, same_root) = f.up i p below (sym (old i below) ∙ e) in
          (omega arith, deeper, same_root)
      | inr last ↦
          let clash : negsuc 0 ≡ pos p = sym fresh ∙ subst (λ x. at' x ≡ pos p) last e in cc
    ];
    top = λ i k lt e. elim (lt_suc-cases i n lt) [
      | inl below ↦
          let (self, flat, size) = f.top i k below (sym (old i below) ∙ e) in
          (self, flat, ground (arith, one_more i))
      | inr last ↦
          let zero_k : 0 ≡ k = negsuc-inj (sym fresh ∙ subst (λ x. at' x ≡ negsuc k) last e) in
          let (self, flat) = f.outside i (omega arith) in
          (self, flat, ground (arith, one_more i, no_more))
    ];
    shallow = λ i lt. elim (lt_suc-cases i n lt) [
      | inl below ↦ ground (arith, one_more (root i), f.shallow i below)
      | inr last ↦
          let (self, flat) = f.outside i (omega arith) in ground (arith, one_more (root i), no_more)
    ];
    inside = λ i lt. elim (lt_suc-cases i n lt) [
      | inl below ↦ omega (arith, f.inside i below)
      | inr last ↦ omega (arith, f.outside i (omega arith))
    ];
    outside = λ i le. f.outside i (omega arith);
  }
    where
      no_more : class_size n root n ≡ 0
      no_more = class_size-none n root n f.inside

  more_roots : count_roots (suc n) root ≡ count_roots n root + 1
  unfolding count_roots sum_below
  more_roots =
      let self : root n ≡ n = (f.outside n (omega arith)).0 in
      let same : (n == n) ≡ true = ground arith in rw (self, same)

-- On a structure that stands for a partition, `add` returns the number of the elements so far, which
-- is its own root, and leaves a structure for the partition with that element as a set of its own.
pub add-Represents :
    (u : UnionFind) (root : ℕ → ℕ)
    → Represents u root
    → ((add u).0 ≡ length u.entries) × (root (add u).0 ≡ (add u).0) × Represents (add u).1 root
unfolding add
add-Represents u root (f, count) =
    let n = length u.entries in
    let grown = u.entries ++ negsuc 0 ∷ [] in
    let size : length grown ≡ suc n = omega (arith, length-append u.entries (negsuc 0 ∷ [])) in
    let end : n + 0 ≡ n = omega arith in
    let old : (i : ℕ) → i < n → entry grown i ≡ entry u.entries i =
      λ i lt. get_or-append_left u.entries (negsuc 0 ∷ []) i (negsuc 0) lt in
    let fresh : entry grown n ≡ negsuc 0 =
      rw end at (get_or-append_right u.entries (negsuc 0 ∷ []) 0 (negsuc 0)) in
    (
      refl,
      (f.outside n (omega arith)).0,
      (
        subst (λ k. IsForest k (entry grown) root) (sym size)
            (added n (entry u.entries) (entry grown) root f old fresh),
        omega (
          arith,
          count,
          ap (λ k. count_roots k root) size,
          more_roots n (entry u.entries) (entry grown) root f,
        ),
      ),
    )
