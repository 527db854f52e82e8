-- ===== src/Trie/Iter/Ends.antt =====
-- The iterators of algors-trie/src/util.rs give the elements from both ends, each once.
use mathlib.Core.List.{append-nil, append_assoc}
use algors.Prelude.{
  ℕ, zero, suc, ◌+◌, ◌-◌, ◌≤◌, ◌<◌, ◌≡◌, refl, sym, ap, ◌∙◌, subst, List, [], ◌∷◌, ◌++◌, Option,
  none, some, Bool, true, false, arith, Outcome, done, ◌>>=◌, Yields, yields, Yields-bind, ◌==◌,
  length, length-append, get_elem?, take, min,
}
use algors.Trie.Iter.{Iter, iter, next, next_back}

module _ {ℓ} {A : Type ℓ} where
  -- What the iterator has still to give.
  abbrev pub left : Iter A → List A
  left it = take it.len it.ptr

  abbrev pub IsInside : Iter A → Type 0
  IsInside it = it.len ≤ length it.ptr

  -- `o` before `xs`, if there is one.
  abbrev pub before : Option A → List A → List A
  before none xs = xs
  before (some x) xs = x ∷ xs

  -- A call gives nothing exactly if nothing is left.
  abbrev pub Ended : Option A → List A → Type ℓ
  Ended none xs = xs ≡ []
  Ended (some x) xs = Unit {ℓ}

  next-left :
      (ptr : List A) (n : ℕ)
      → n ≤ length ptr
      → Yields
          (λ (o, it'). IsInside it' × (take n ptr ≡ before o (left it')) × Ended o (take n ptr))
          (next (record { ptr = ptr; len = n }))
  unfolding next
  next-left ptr zero le = yields {a = (none, record { ptr = ptr; len = 0 })} (le, refl, refl)
  next-left [] (suc n) le = absurd (omega arith)
  next-left (x ∷ xs) (suc n) le =
      let some_left : (suc n == 0) ≡ false = ground arith in
      let e : suc n - 1 ≡ n = omega arith in
      rw (some_left, e)
        (yields {a = (some x, record { ptr = xs; len = n })} (omega arith, refl, tt))

  last-of :
      (xs : List A) (n : ℕ)
      → n < length xs
      → (x : A) × (get_elem? xs n ≡ some x) × (take (suc n) xs ≡ take n xs ++ x ∷ [])
  last-of [] n lt = absurd (omega arith)
  last-of (x ∷ xs) zero lt = (x, refl, refl)
  last-of (x ∷ xs) (suc n) lt = let (y, at, e) = last-of xs n (omega arith) in (y, at, ap (◌∷◌ x) e)

  next_back-none :
      (ptr : List A)
      → next_back (record { ptr = ptr; len = 0 }) ≡ done (none, record { ptr = ptr; len = 0 })
  unfolding next_back
  next_back-none ptr = refl

  next_back-last :
      (ptr : List A) (n : ℕ) (x : A)
      → get_elem? ptr n ≡ some x
      → next_back (record { ptr = ptr; len = suc n }) ≡ done (some x, record { ptr = ptr; len = n })
  unfolding next_back
  next_back-last ptr n x at =
      let some_left : (suc n == 0) ≡ false = ground arith in
      let e : suc n - 1 ≡ n = omega arith in rw (some_left, e, at, e) refl

  next_back-left :
      (ptr : List A) (n : ℕ)
      → n ≤ length ptr
      → Yields
          (λ (o, it'). IsInside it' × (take n ptr ≡ left it' ++ before o []) × Ended o (take n ptr))
          (next_back (record { ptr = ptr; len = n }))
  next_back-left ptr zero le =
      rw (next_back-none ptr) (yields {a = (none, record { ptr = ptr; len = 0 })} (le, refl, refl))
  next_back-left ptr (suc n) le =
      let (x, at, whole) = last-of ptr n (omega arith) in
      rw (next_back-last ptr n x at) (yields (omega arith, whole, tt))

  -- Calls of `next` (true) and `next_back` (false): what they give from the front, in their order, and from the
  -- back, the last one first.
  unfoldable pub pull : List Bool → Iter A → Outcome (List A × List A × Iter A)
  pull [] it = done ([], [], it)
  pull (true ∷ calls) it = next it >>= λ (o, it').
      pull calls it' >>= λ (fronts, backs, it''). done (before o fronts, backs, it'')
  pull (false ∷ calls) it = next_back it >>= λ (o, it').
      pull calls it' >>= λ (fronts, backs, it''). done (fronts, backs ++ before o [], it'')

  before-append : (o : Option A) (xs ys : List A) → before o xs ++ ys ≡ before o (xs ++ ys)
  before-append none xs ys = refl
  before-append (some x) xs ys = refl

  take_whole : (xs : List A) → take (length xs) xs ≡ xs
  take_whole [] = refl
  take_whole (x ∷ xs) = ap (◌∷◌ x) (take_whole xs)

  -- The elements are those given from the front, those left, and those given from the back; and each of so many
  -- calls gave one, until none was left.
  abbrev pub IsSplit : ℕ → List A → List A × List A × Iter A → Type ℓ
  IsSplit calls xs (fronts, backs, it') =
      IsInside it'
      × (xs ≡ fronts ++ (left it' ++ backs))
      × (length fronts + length backs ≡ min calls (length xs))

  -- One more call, at either end.
  count-front :
      (o : Option A) (xs ys fronts : List A) (n calls : ℕ)
      → Ended o xs
      → xs ≡ before o ys
      → length fronts + n ≡ min calls (length ys)
      → length (before o fronts) + n ≡ min (suc calls) (length xs)
  count-front none xs ys fronts n calls ended e h = omega (arith, ap length ended, ap length e, h)
  count-front (some x) xs ys fronts n calls ended e h = omega (arith, ap length e, h)

  count-back :
      (o : Option A) (xs ys backs : List A) (n calls : ℕ)
      → Ended o xs
      → xs ≡ ys ++ before o []
      → n + length backs ≡ min calls (length ys)
      → n + length (backs ++ before o []) ≡ min (suc calls) (length xs)
  count-back none xs ys backs n calls ended e h =
      omega (arith, ap length ended, ap length e, length-append ys [], length-append backs [], h)
  count-back (some x) xs ys backs n calls ended e h =
      omega (arith, ap length e, length-append ys (x ∷ []), length-append backs (x ∷ []), h)

  pull-IsSplit :
      (calls : List Bool) (it : Iter A)
      → IsInside it
      → Yields (IsSplit (length calls) (left it)) (pull calls it)
  unfolding pull
  pull-IsSplit [] it inside = yields (inside, sym (append-nil (left it)), omega arith)
  pull-IsSplit (true ∷ calls) it inside =
      Yields-bind (next-left it.ptr it.len inside) λ (o, it') (inside', e, ended).
        Yields-bind (pull-IsSplit calls it' inside')
          λ (fronts, backs, it'') (inside'', split, counted). yields (
            inside'',
            e ∙ ap (before o) split ∙ sym (before-append o fronts (left it'' ++ backs)),
            count-front o (left it) (left it') fronts (length backs) (length calls) ended e counted,
          )
  pull-IsSplit (false ∷ calls) it inside =
      Yields-bind (next_back-left it.ptr it.len inside) λ (o, it') (inside', e, ended).
        Yields-bind (pull-IsSplit calls it' inside')
          λ (fronts, backs, it'') (inside'', split, counted). yields (
            inside'',
            e
                ∙ ap (λ l. l ++ before o []) split
                ∙ append_assoc fronts (left it'' ++ backs) (before o [])
                ∙ ap (λ l. fronts ++ l) (append_assoc (left it'') backs (before o [])),
            count-back o (left it) (left it') backs (length fronts) (length calls) ended e counted,
          )

  -- Any calls of `next` and `next_back` on an iterator over a vector of the given length end, and read no element
  -- outside it. The vector is what they gave from the front, what is left, and what they gave from the back, in
  -- this order; and each call gives an element until none is left.
  pub iter-IsSplit :
      (vec : List A) (calls : List Bool)
      → Yields (IsSplit (length calls) vec) (pull calls (iter vec (length vec)))
  unfolding iter
  iter-IsSplit vec calls =
      subst
        (λ xs.
          Yields (IsSplit (length calls) xs) (pull calls (record { ptr = vec; len = length vec })))
        (take_whole vec) (pull-IsSplit calls (record { ptr = vec; len = length vec }) (omega arith))
