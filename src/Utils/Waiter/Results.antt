-- ===== src/Utils/Waiter/Results.antt =====
-- What the waiters of algors-utils/src/waiter.rs return, and when.
use algors.Prelude.{
  ℕ, zero, suc, ◌+◌, ◌≤◌, ◌<◌, ◌≡◌, ◌⊎◌, refl, inl, inr, Option, none, some, Bool, true, false,
  Bool-cases, arith, Outcome, done, exhausted, Yields, Yields-value, ◌==◌,
}
use algors.Utils.Backoff
use algors.Utils.Backoff.{Backoff, Pause, spin, pause, is_done}
use algors.Utils.Backoff.Bounds.{IsCounted, pauses-AreCounted}
use algors.Utils.Waiter.{retry, spin_wait, yield_wait, sleep_while, blocking_loop, blocking_wait}

module _ {ℓ κ} {S : Type ℓ} {A : Type κ} (op : S → Outcome (Option A × S)) (meanwhile : S → S) where
  -- The operation fails so many times, each time before the others go on, and then succeeds with `v`.
  pub data Succeeds : ℕ → S → A → S → Type (ℓ ⊔ κ) where
    at_once : {s s' : S} {v : A} → op s ≡ done (some v, s') → Succeeds 0 s v s'
    later :
        {n : ℕ} {s s' s'' : S} {v : A}
        → op s ≡ done (none, s')
        → Succeeds n (meanwhile s') v s''
        → Succeeds (suc n) s v s''

  retry-Succeeds :
      (pauses : Backoff → Outcome (Pause × Backoff))
      → ((b : Backoff) → Yields (IsCounted b) (pauses b))
      → (fuel n : ℕ) (b : Backoff) (s : S) (v : A) (s' : S) → Succeeds n s v s'
      → n < fuel
      → retry op meanwhile pauses fuel b s ≡ done (v, s')
  unfolding retry
  retry-Succeeds pauses counted zero n b s v s' h lt = absurd (omega arith)
  retry-Succeeds pauses counted (suc fuel) _ b s v s' (at_once e) lt = rw e refl
  retry-Succeeds pauses counted (suc fuel) _ b s v s' (later {n = n} {s' = m} e h) lt =
      let ((p, b'), is, c) = Yields-value (counted b) in
      rw (e, is) (retry-Succeeds pauses counted fuel n b' (meanwhile m) v s' h (omega arith))

  -- If the operation fails `n` times, with the others going on after each, and then succeeds, `SpinWait` and
  -- `YieldWait` return its value after `n + 1` calls of it, with or without the feature `std`. No pause panics.
  pub waits-Succeeds :
      (std checks : Bool) (fuel n : ℕ) (s : S) (v : A) (s' : S)
      → Succeeds n s v s'
      → n < fuel
      → (spin_wait op meanwhile checks fuel s ≡ done (v, s'))
        × (yield_wait op meanwhile std checks fuel s ≡ done (v, s'))
  unfolding spin_wait yield_wait
  waits-Succeeds std checks fuel n s v s' h lt = (
    retry-Succeeds (λ b. spin checks b) (λ b. (pauses-AreCounted std checks b).0) fuel n Backoff.new
        s v s' h lt,
    retry-Succeeds (λ b. pause std checks b) (λ b. (pauses-AreCounted std checks b).1) fuel n
        Backoff.new s v s' h lt,
  )

  module _ (state : S → ℕ) (sleep : S → S) where
    -- Some calls of the operation that return nothing, in between which the others go on, and then one that
    -- returns `v`.
    pub data Waited : S → A → S → Type (ℓ ⊔ κ) where
      returned : {s s' : S} {v : A} → op s ≡ done (some v, s') → Waited s v s'
      failed : {s s' s'' : S} {v : A} → op s ≡ done (none, s') → Waited s' v s'' → Waited s v s''
      paused : {s s' : S} {v : A} → Waited (meanwhile s) v s' → Waited s v s'
      slept : {s s' : S} {v : A} → Waited (sleep s) v s' → Waited s v s'

    sleep_while-zero :
        (prev : ℕ) (s : S) → sleep_while op meanwhile state sleep zero prev s ≡ exhausted
    unfolding sleep_while
    sleep_while-zero prev s = refl

    -- After at most so many returns of `Condvar::wait`, the number is another one.
    pub data Wakes (prev : ℕ) : ℕ → S → Type ℓ where
      awake : {n : ℕ} {s : S} → (state s == prev) ≡ false → Wakes prev n s
      asleep : {n : ℕ} {s : S} → Wakes prev n (sleep s) → Wakes prev (suc n) s

    -- The others make progress: what they do after a call that fails leaves less of `rank` to wait for.
    module _ (rank : S → ℕ)
        (calls : (s : S)
          → ((v : A) × (s' : S) × (op s ≡ done (some v, s')))
            ⊎ ((s' : S) × (op s ≡ done (none, s')) × (rank (meanwhile s') < rank s)))
        (goes_on : (s : S) → rank (meanwhile s) ≤ rank s)
        (rests : (s : S) → rank (sleep s) ≤ rank s) (lag : ℕ)
        (wakes : (prev : ℕ) (s : S) → Wakes prev lag s) where
      -- What is left after the wait on the condition variable.
      abbrev Slept : S → S → Type (ℓ ⊔ κ)
      Slept s w = (rank w ≤ rank s) × ((v : A) (s' : S) → Waited w v s' → Waited s v s')

    fresh-Succeeds :
        (checks : Bool) (fuel n : ℕ) (b : Backoff) (s : S) (v : A) (s' : S)
        → Succeeds n s v s'
        → n + b.count ≤ 8
        → n < fuel
        → blocking_loop op meanwhile state sleep checks fuel b s ≡ done (v, s')
    unfolding blocking_loop is_done
    fresh-Succeeds checks zero n b s v s' h few lt = absurd (omega arith)
    fresh-Succeeds checks (suc fuel) _ b s v s' (at_once e) few lt = elim (Bool-cases (is_done b)) [
      | inl tired ↦ rw (blocking_loop, tired, e) refl
      | inr fresh ↦ rw (blocking_loop, fresh, e) refl
    ]
    fresh-Succeeds checks (suc fuel) _ b s v s' (later {n = n} {s' = m} e h) few lt =
        let fresh : is_done b ≡ false = ground arith in
        let ((p, b'), is, c) = Yields-value ((pauses-AreCounted true checks b).0) in
        rw (blocking_loop, fresh, e, is)
          (fresh-Succeeds checks fuel n b' (meanwhile m) v s' h (omega (arith, c)) (omega arith))

    -- If the operation fails at most eight times before it succeeds, `BlockingWait` returns its value without
    -- a wait on the condition variable.
    pub blocking_wait-Succeeds :
        (checks : Bool) (fuel n : ℕ) (s : S) (v : A) (s' : S)
        → Succeeds n s v s'
        → n ≤ 8
        → n < fuel
        → blocking_wait op meanwhile state sleep checks fuel s ≡ done (v, s')
    unfolding blocking_wait Backoff.new
    blocking_wait-Succeeds checks fuel n s v s' h few lt =
        fresh-Succeeds checks fuel n Backoff.new s v s' h (omega arith) lt
