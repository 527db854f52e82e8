-- ===== src/Heap.antt =====
-- algors-heap/src/heap.rs: the binary heap over a comparison closure. The closure is a pure
-- function here (`FnMut` would also let it keep state). An index out of range panics. Every index
-- is below twice the length plus three, and a `Vec` has at most 2^63 - 1 entries, so no `usize`
-- computation wraps.
pub mod Order
pub mod Up
pub mod Down
pub mod Pop
pub mod Drain
mod Tests
use algors.Prelude.{
  ℕ, zero, suc, ◌+◌, ◌-◌, ◌*◌, ◌/◌, Bool, true, false, List, [], ◌∷◌, ◌++◌, Option, none, some,
  Ordering, Outcome, done, panic, exhausted, ◌>>=◌, or_panic, ltb, leb, ◌==◌, ◌&&◌, if◌then◌else◌,
  length, get_elem?, set, take,
}

pub record Heap {ℓ} (A : Type ℓ) : Type ℓ where
  pub items : List A
  pub cmp : A → A → Ordering

pub left : ℕ → ℕ
left i = i * 2 + 1

pub right : ℕ → ℕ
right i = i * 2 + 2

-- `(i - 1) / 2`; only called at `i > 0`.
pub parent : ℕ → ℕ
parent i = (i - 1) / 2

-- The patterns `Less | Equal`, `Less` and `Greater` of the three tests.
abbrev pub is_le : Ordering → Bool
is_le Ordering.gt = false
is_le _ = true

abbrev pub is_lt : Ordering → Bool
is_lt Ordering.lt = true
is_lt _ = false

abbrev pub is_gt : Ordering → Bool
is_gt Ordering.gt = true
is_gt _ = false

module _ {ℓ} {A : Type ℓ} where
  -- `self.data[i]`
  pub index : List A → ℕ → Outcome A
  index xs i = or_panic (get_elem? xs i)

  -- `Vec::swap`
  pub swap : List A → ℕ → ℕ → Outcome (List A)
  swap xs i j = index xs i >>= λ x. index xs j >>= λ y. done (set (set xs i y) j x)

module _ {ℓ} {A : Type ℓ} (cmp : A → A → Ordering) where
  sift_up_loop : ℕ → List A → ℕ → Outcome (List A)
  sift_up_loop zero xs i = exhausted
  sift_up_loop (suc fuel) xs i =
      let p = parent i in
      let rise = swap xs i p >>= λ ys. sift_up_loop fuel ys p in
      let round =
        index xs p >>= λ x. index xs i >>= λ y. if is_le (cmp x y) then done xs else rise in
      if ltb 0 i then round else done xs

  pub sift_up : List A → Outcome (List A)
  sift_up xs = if leb (length xs) 1 then done xs else sift_up_loop (length xs) xs (length xs - 1)

  -- The child that the loop of `sift_down` compares with: the right one if it exists and is less.
  smaller_child : List A → ℕ → Outcome ℕ
  smaller_child xs i =
      if ltb (right i) (length xs)
      then (index xs (right i) >>= λ r.
          index xs (left i) >>= λ l. done (if is_lt (cmp r l) then right i else left i))
      else done (left i)

  sift_down_loop : ℕ → List A → ℕ → Outcome (List A)
  sift_down_loop zero xs i = exhausted
  sift_down_loop (suc fuel) xs i =
      let round = smaller_child xs i >>= λ child. index xs i >>= λ x. index xs child >>= λ y.
      let sink = swap xs i child >>= λ ys. sift_down_loop fuel ys child in
      if is_gt (cmp x y) then sink else done xs in
      if ltb i (length xs) then (if leb (length xs) (left i) then done xs else round) else done xs

  pub sift_down : List A → Outcome (List A)
  sift_down xs = if leb (length xs) 1 then done xs else sift_down_loop (length xs + 1) xs 0

module _ {ℓ} {A : Type ℓ} where
  pub new : (A → A → Ordering) → Heap A
  new cmp = record { items = []; cmp = cmp }

  pub len : Heap A → ℕ
  len h = length h.items

  pub is_empty : Heap A → Bool
  is_empty h = length h.items == 0

  pub peek : Heap A → Option A
  peek h = get_elem? h.items 0

  pub push : Heap A → A → Outcome (Heap A)
  unfolding sift_up sift_up_loop swap index parent
  push h element = sift_up h.cmp (h.items ++ element ∷ []) >>= λ xs. done (record h { items = xs })

  -- The last entry, as `Vec::pop` takes it off.
  pub split_last : List A → Option A × List A
  split_last xs = (get_elem? xs (length xs - 1), take (length xs - 1) xs)

  pub pop : Heap A → Outcome (Option A × Heap A)
  unfolding sift_down sift_down_loop smaller_child swap index left right is_empty split_last
  pop h =
      if is_empty h
      then done (none, h)
      else (swap h.items 0 (length h.items - 1) >>= λ xs.
          let (res, rest) = split_last xs in
          sift_down h.cmp rest >>= λ ys. done (res, record h { items = ys }))
