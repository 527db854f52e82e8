-- ===== src/UnionFind.antt =====
-- algors-union-find/src/union_find.rs: the disjoint sets. An entry is the index of the parent, or at a
-- root the negated size of the set. `Vec` indexing panics out of bounds. A round of a loop takes fuel;
-- one more than the number of elements is enough, as paths are shorter. Indices and sizes are at most
-- the length of the vector, which Rust keeps below 2^63, so that the casts and `+=` are exact. The
-- subtraction from `num_sets` panics below 0, as a build with overflow checks does.
pub mod Forest
pub mod Find
pub mod Merge
pub mod Union
pub mod Tests
use algors.Prelude.{
  ℕ, zero, suc, ◌+◌, ◌-◌, List, [], ◌∷◌, ◌++◌, Bool, true, false, Outcome, done, panic, exhausted,
  ◌>>=◌, or_panic, ◌==◌, if◌then◌else◌, length, get_elem?, set, replicate, ℤ, pos, negsuc, ◌+ℤ◌,
  leb_ℤ, unsigned_abs,
}

-- `data` is `entries`.
pub record UnionFind : Type 0 where
  pub entries : List ℤ
  pub num_sets : ℕ

pub new : ℕ → UnionFind
new size = record { entries = replicate size (negsuc 0); num_sets = size }

pub with_capacity : ℕ → UnionFind
with_capacity size = record { entries = []; num_sets = 0 }

pub add : UnionFind → ℕ × UnionFind
add u =
    let new_i = length u.entries in
    (new_i, record { entries = u.entries ++ negsuc 0 ∷ []; num_sets = u.num_sets + 1 })

-- The first loop of `find`: up to the root.
pub root_loop : ℕ → List ℤ → ℕ → Outcome ℕ
root_loop zero xs root = exhausted
root_loop (suc fuel) xs root = or_panic (get_elem? xs root) >>= λ v. elim v [
  | pos parent ↦ root_loop fuel xs parent
  | negsuc n ↦ done root
]

-- The second loop of `find`: each element on the path is made a child of the root.
pub flatten_loop : ℕ → List ℤ → ℕ → ℕ → Outcome (List ℤ)
flatten_loop zero xs cur root = exhausted
flatten_loop (suc fuel) xs cur root = or_panic (get_elem? xs cur) >>= λ v. elim v [
  | pos next ↦ flatten_loop fuel (set xs cur (pos root)) next root
  | negsuc n ↦ done xs
]

pub find : UnionFind → ℕ → Outcome (ℕ × UnionFind)
find u i = root_loop (length u.entries + 1) u.entries i >>= λ root.
    flatten_loop (length u.entries + 1) u.entries i root >>= λ xs.
    done (root, record u { entries = xs })

-- `self.data[winner] += self.data[loser]; self.data[loser] = winner`
pub link : List ℤ → ℕ → ℕ → Outcome (List ℤ)
link xs winner loser = or_panic (get_elem? xs winner) >>= λ size.
    or_panic (get_elem? xs loser) >>= λ more.
    done (set (set xs winner (size +ℤ more)) loser (pos winner))

-- `self.num_sets -= 1`
pub decrement : ℕ → Outcome ℕ
decrement n = if n == 0 then panic else done (n - 1)

pub union : UnionFind → ℕ → ℕ → Outcome (Bool × UnionFind)
union u i j = find u i >>= λ (root_i, u_i). find u_i j >>= λ (root_j, u_j).
    if root_j == root_i
    then done (false, u_j)
    else (or_panic (get_elem? u_j.entries root_j) >>= λ size_j.
        or_panic (get_elem? u_j.entries root_i) >>= λ size_i.
        (if leb_ℤ size_j size_i
          then link u_j.entries root_j root_i
          else link u_j.entries root_i root_j)
        >>= λ xs.
            decrement u_j.num_sets >>= λ n. done (true, record { entries = xs; num_sets = n }))

pub size_of : UnionFind → ℕ → Outcome (ℕ × UnionFind)
size_of u i = find u i >>= λ (root, v).
    or_panic (get_elem? v.entries root) >>= λ size. done (unsigned_abs size, v)

-- The field and the length, as methods.
pub num_sets : UnionFind → ℕ
num_sets u = u.num_sets

pub len : UnionFind → ℕ
len u = length u.entries
