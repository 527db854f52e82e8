-- ===== src/Queue/Spsc/Invariant.antt =====
-- What holds of the ring and of both threads of algors-queue/src/spsc.rs at any time: the counters are
-- counts that never wrap around, taken modulo the size of a word.
use algors.Prelude.{
  ℕ, zero, suc, ◌+◌, ◌-◌, ◌%◌, ◌^◌, ◌≤◌, ◌<◌, ◌≡◌, refl, sym, ap, subst, List, [], ◌∷◌, ◌++◌,
  Option, none, some, true, arith, ltb, ◌==◌, length, length-replicate, get_or, replicate, Yields,
  yields,
}
use algors.Prelude.Bits.{pow_mono}
use algors.Prelude.Indices.{
  usize_values, wrapping_sub, wrapping_sub-exact, bit_and-low, wrapped-slot,
}
use algors.Queue.Spsc.{
  Inner, Pushing, push_idle, push_reload, push_write, push_publish, Popping, pop_idle, pop_reload,
  pop_read, pop_release, System, Event, silent, pushed, refused, popped, found_empty, len, mask,
  new, new_spsc, is_full, is_drained,
}
use algors.Queue.Spsc.Ring.{IsRing}

module _ {ℓ} {A : Type ℓ} where
  abbrev pub filled : List A → List (Option A)
  filled [] = []
  filled (x ∷ xs) = some x ∷ filled xs

  abbrev pub rest : List A → List A
  rest [] = []
  rest (x ∷ xs) = xs

  -- The slots of the values in the queue: the consumer may have moved the first one out.
  abbrev pub front : Popping A → List A → List (Option A)
  front pop_idle q = filled q
  front (pop_reload c) q = filled q
  front (pop_read c) q = filled q
  front (pop_release c v) q = none ∷ filled (rest q)

  -- The slot that the producer has written and not yet published.
  abbrev pub pending : Pushing A → List (Option A)
  pending push_idle = []
  pending (push_reload v c) = []
  pending (push_write v c) = []
  pending (push_publish v c) = some v ∷ []

  -- The locals of the producer: `t` counts the calls that moved the tail, and `seen` those
  -- that moved the head up to the cached one.
  abbrev pub PushAt : ℕ → ℕ → ℕ → Pushing A → Type 0
  PushAt room seen t push_idle = Unit {0}
  PushAt room seen t (push_reload v c) = c ≡ t % usize_values
  PushAt room seen t (push_write v c) = (c ≡ t % usize_values) × (t < seen + room)
  PushAt room seen t (push_publish v c) = (c ≡ t % usize_values) × (t < seen + room)

  abbrev pub PopAt : ℕ → ℕ → Popping A → Type 0
  PopAt h seen pop_idle = Unit {0}
  PopAt h seen (pop_reload c) = c ≡ h % usize_values
  PopAt h seen (pop_read c) = (c ≡ h % usize_values) × (h < seen)
  PopAt h seen (pop_release c v) = (c ≡ h % usize_values) × (h < seen)

  -- A value that was moved out is the first of the queue.
  abbrev pub Taken : Popping A → List A → Type ℓ
  Taken pop_idle q = Unit {ℓ}
  Taken (pop_reload c) q = Unit {ℓ}
  Taken (pop_read c) q = Unit {ℓ}
  Taken (pop_release c v) q = (q' : List A) × (q ≡ v ∷ q')

  -- The system holds the queue `q`.
  pub record IsQueue (pow : ℕ) (s : System A) (q : List A) : Type ℓ where
    pub h : ℕ
    pub t : ℕ
    pub hc : ℕ
    pub tc : ℕ
    pub small : pow < 64
    pub count : t ≡ h + length q
    pub fits : length q ≤ 2 ^ pow
    pub head_at : s.inner.head ≡ h % usize_values
    pub tail_at : s.inner.tail ≡ t % usize_values
    pub ring : IsRing (2 ^ pow) s.inner.buf h (front s.popping q ++ pending s.pushing)
    pub head_seen : (s.head_cache ≡ hc % usize_values) × (hc ≤ h) × (t ≤ hc + 2 ^ pow)
    pub tail_seen : (s.tail_cache ≡ tc % usize_values) × (h ≤ tc) × (tc ≤ t)
    pub push_at : PushAt (2 ^ pow) hc t s.pushing
    pub pop_at : PopAt h tc s.popping
    pub taken : Taken s.popping q

  -- What an event does to the queue of at most `room` values.
  abbrev pub Spec : ℕ → List A → Event A → List A → Type ℓ
  Spec room q silent q' = q' ≡ q
  Spec room q (pushed v) q' = (length q < room) × (q' ≡ q ++ v ∷ [])
  Spec room q (refused v) q' = (length q ≡ room) × (q' ≡ q)
  Spec room q (popped v) q' = q ≡ v ∷ q'
  Spec room q found_empty q' = (q ≡ []) × (q' ≡ [])

  pub length-filled : (q : List A) → length (filled q) ≡ length q
  length-filled [] = refl
  length-filled (x ∷ q) = ap suc (length-filled q)

  pub filled-snoc : (q : List A) (v : A) → filled (q ++ v ∷ []) ≡ filled q ++ some v ∷ []
  filled-snoc [] v = refl
  filled-snoc (x ∷ q) v = ap (◌∷◌ (some x)) (filled-snoc q v)

pub pow-lt : (pow : ℕ) → pow < 64 → 2 ^ pow < usize_values
pow-lt pow lt = pow_mono pow 64 lt

-- The tests of the code, on counts.
module _ (pow : ℕ) (small : pow < 64) where
  pub is_full-exact {ℓ} :
      {A : Type ℓ} (inner : Inner A) (x y t hc : ℕ)
      → length inner.buf ≡ 2 ^ pow
      → x ≡ t % usize_values
      → y ≡ hc % usize_values
      → hc ≤ t
      → t ≤ hc + 2 ^ pow
      → is_full inner x y ≡ (t == hc + 2 ^ pow)
  unfolding is_full len
  is_full-exact inner x y t hc size ex ey le fits =
      let e : hc + (t - hc) ≡ t = omega arith in
      let exact = wrapping_sub-exact hc (t - hc) (omega (arith, pow-lt pow small)) in
      let exact' : wrapping_sub (t % usize_values) (hc % usize_values) ≡ t - hc = rw e at exact in
      rw (ex, ey, exact', size) (ground arith)

  pub is_drained-exact :
      (x y h tc : ℕ)
      → x ≡ h % usize_values
      → y ≡ tc % usize_values
      → h ≤ tc
      → tc ≤ h + 2 ^ pow
      → is_drained x y ≡ (tc == h)
  unfolding is_drained
  is_drained-exact x y h tc ex ey le fits =
      let e : h + (tc - h) ≡ tc = omega arith in
      let exact = wrapping_sub-exact h (tc - h) (omega (arith, pow-lt pow small)) in
      let exact' : wrapping_sub (tc % usize_values) (h % usize_values) ≡ tc - h = rw e at exact in
      rw (ex, ey, exact') (ground arith)

  pub mask-exact {ℓ} :
      {A : Type ℓ} (inner : Inner A) (x n : ℕ)
      → length inner.buf ≡ 2 ^ pow
      → x ≡ n % usize_values
      → mask inner x ≡ n % 2 ^ pow
  unfolding mask
  mask-exact inner x n size e =
      rw (e, size, bit_and-low pow (n % usize_values)) (wrapped-slot pow n (omega arith))

-- A slot that was not written yet.
abbrev no_value {ℓ} : (A : Type ℓ) → Option A
no_value A = none

module _ {ℓ} {A : Type ℓ} where
  get_or-replicate : (n i : ℕ) → get_or (replicate n (no_value A)) i none ≡ none
  get_or-replicate zero i = refl
  get_or-replicate (suc n) zero = refl
  get_or-replicate (suc n) (suc i) = get_or-replicate n i

  replicate-IsRing : (n : ℕ) → IsRing n (replicate n (no_value A)) 0 []
  replicate-IsRing n = record {
    size = length-replicate n none;
    slots = λ i lt. get_or-replicate n ((0 + i) % n);
  }

  -- `new_spsc` panics from 64 on, and else starts with an empty queue.
  pub new_spsc-IsQueue :
      (pow : ℕ) → pow < 64 → Yields (λ (s : System A). IsQueue pow s []) (new_spsc pow)
  unfolding new_spsc new
  new_spsc-IsQueue pow lt =
      let fits : ltb pow 64 ≡ true = ground arith in
      rw fits (
        yields (record {
          h = 0;
          t = 0;
          hc = 0;
          tc = 0;
          small = lt;
          count = refl;
          fits = omega arith;
          head_at = refl;
          tail_at = refl;
          ring = replicate-IsRing (2 ^ pow);
          head_seen = (refl, omega arith, omega arith);
          tail_seen = (refl, omega arith, omega arith);
          push_at = tt;
          pop_at = tt;
          taken = tt;
        }))

  module _ (pow : ℕ) (s : System A) (q : List A) (inv : IsQueue pow s q) where
    open inv use {h, t, hc, tc}

    -- The producer goes on, and no slot changes.
    pub with_pushing :
        (cache hc' : ℕ) (p : Pushing A)
        → pending p ≡ pending s.pushing
        → (cache ≡ hc' % usize_values) × (hc' ≤ h) × (t ≤ hc' + 2 ^ pow)
        → PushAt (2 ^ pow) hc' t p
        → IsQueue pow (record s { head_cache = cache; pushing = p }) q
    with_pushing cache hc' p same seen at = record {
      h = h;
      t = t;
      hc = hc';
      tc = tc;
      small = inv.small;
      count = inv.count;
      fits = inv.fits;
      head_at = inv.head_at;
      tail_at = inv.tail_at;
      ring =
          subst (λ cs. IsRing (2 ^ pow) s.inner.buf h (front s.popping q ++ cs)) (sym same)
            inv.ring;
      head_seen = seen;
      tail_seen = inv.tail_seen;
      push_at = at;
      pop_at = inv.pop_at;
      taken = inv.taken;
    }

    -- The consumer goes on, and no slot changes.
    pub with_popping :
        (cache tc' : ℕ) (p : Popping A)
        → front p q ≡ front s.popping q
        → (cache ≡ tc' % usize_values) × (h ≤ tc') × (tc' ≤ t)
        → PopAt h tc' p
        → Taken p q
        → IsQueue pow (record s { tail_cache = cache; popping = p }) q
    with_popping cache tc' p same seen at taken = record {
      h = h;
      t = t;
      hc = hc;
      tc = tc';
      small = inv.small;
      count = inv.count;
      fits = inv.fits;
      head_at = inv.head_at;
      tail_at = inv.tail_at;
      ring =
          subst (λ cs. IsRing (2 ^ pow) s.inner.buf h (cs ++ pending s.pushing)) (sym same)
            inv.ring;
      head_seen = inv.head_seen;
      tail_seen = seen;
      push_at = inv.push_at;
      pop_at = at;
      taken = taken;
    }
