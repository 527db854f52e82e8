-- ===== src/Trie/Iter.antt =====
-- `Iter` and `IterMut` of algors-trie/src/util.rs, the iterators over the child vector from both ends. The
-- pointer is the list of the elements from it on, in the vector's allocation; a read past them is undefined.
pub mod Ends
mod Tests
use algors.Prelude.{
  ℕ, zero, suc, ◌+◌, ◌-◌, List, [], ◌∷◌, Option, none, some, Bool, true, false, Outcome, done,
  undefined, ◌>>=◌, ◌==◌, if◌then◌else◌, get_elem?,
}

pub record Iter {ℓ} (A : Type ℓ) : Type ℓ where
  pub ptr : List A
  pub len : ℕ

module _ {ℓ} {A : Type ℓ} where
  -- `BoundedRawVec::iter`
  unfoldable pub iter : List A → ℕ → Iter A
  iter vec n = record { ptr = vec; len = n }

  unfoldable pub new_empty : Iter A
  new_empty = record { ptr = []; len = 0 }

  unfoldable pub next : Iter A → Outcome (Option A × Iter A)
  next it = if it.len == 0 then done (none, it) else elim it.ptr [
    | [] ↦ undefined
    | x ∷ xs ↦ done (some x, record { ptr = xs; len = it.len - 1 })
  ]

  unfoldable pub next_back : Iter A → Outcome (Option A × Iter A)
  next_back it = if it.len == 0 then done (none, it) else elim (get_elem? it.ptr (it.len - 1)) [
    | none ↦ undefined
    | some x ↦ done (some x, record { ptr = it.ptr; len = it.len - 1 })
  ]

  unfoldable pub count : Iter A → ℕ
  count it = it.len
