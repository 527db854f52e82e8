-- ===== src/Queue/Mpmc/Wait.antt =====
-- `push` and `pop` of algors-queue/src/mpmc.rs, which retry by a waiter. The waiter is a parameter; between two
-- of its attempts other threads go on, and none of them during an attempt.
use algors.Prelude.{
  ℕ, ◌+◌, ◌^◌, ◌<◌, ◌≡◌, ◌≢◌, Option, none, some, Bool, true, false, Outcome, done, panic, ◌>>=◌,
}
use algors.Queue.Mpmc.{
  Event, silent, claimed, reserved, pushed, refused, popped, found_empty, System, try_push, try_pop,
}
use algors.Queue.Mpmc.Steps.{Step}
use algors.Queue.Spsc.Wait.{Result, ok, err}

module _ {ℓ} {A : Type ℓ} (checks : Bool) where
  -- The closure of `push`: the value is in `store` while it is not pushed. A call of `try_push` ends with one
  -- of two events.
  unfoldable pub attempt : System A × Option A → Outcome (Option (Unit {0}) × (System A × Option A))
  attempt (s, none) = done (none, (s, none))
  attempt (s, some val) = try_push checks s.inner val >>= λ (e, inner).
      let s' = record s { inner = inner } in
      done (elim e [
        | refused v ↦ (none, (s', some v))
        | silent ↦ (none, (s', none))
        | claimed v ↦ (none, (s', none))
        | reserved ↦ (none, (s', none))
        | pushed p v ↦ (some tt, (s', none))
        | popped p v ↦ (none, (s', none))
        | found_empty ↦ (none, (s', none))
      ])

  -- The closure of `pop`.
  unfoldable pub attempt_pop : System A → Outcome (Option A × System A)
  attempt_pop s = try_pop checks s.inner >>= λ (e, inner).
      let s' = record s { inner = inner } in
      done (elim e [
        | popped p v ↦ (some v, s')
        | found_empty ↦ (none, s')
        | silent ↦ (none, s')
        | claimed v ↦ (none, s')
        | reserved ↦ (none, s')
        | pushed p v ↦ (none, s')
        | refused v ↦ (none, s')
      ])

module _ {ℓ κ} {A : Type ℓ} {E : Type κ} (checks : Bool) where
  -- `push`, by the waiter's `wait_for`: its result, whether the notifier is called, and the system.
  unfoldable pub push :
      ((System A × Option A → Outcome (Option (Unit {0}) × (System A × Option A)))
        → System A × Option A
        → Outcome (Result (Unit {0}) E × (System A × Option A)))
      → System A
      → A
      → Outcome (Result (Unit {0}) (A × E) × Bool × System A)
  push wait_for s val = wait_for (attempt checks) (s, some val) >>= λ (res, (s', store)). elim res [
    | ok x ↦ done (ok tt, true, s')
    | err e ↦ elim store [ none ↦ panic | some v ↦ done (err (v, e), false, s') ]
  ]

  -- `pop`
  unfoldable pub pop :
      ((System A → Outcome (Option A × System A)) → System A → Outcome (Result A E × System A))
      → System A
      → Outcome (Result A E × Bool × System A)
  pop wait_for s = wait_for (attempt_pop checks) s >>= λ (res, s'). elim res [
    | ok val ↦ done (ok val, true, s')
    | err e ↦ done (err e, false, s')
  ]

module _ {ℓ} {A : Type ℓ} (checks : Bool) (pow i : ℕ) where
  -- What the threads other than `i` do meanwhile, while the counters stay below half of the values of a word.
  pub data Others : System A → System A → Type ℓ where
    stays : {s : System A} → Others s s
    goes :
        {s s' : System A} (j : ℕ) {e : Event A} {s'' : System A}
        → Others s s'
        → i ≢ j
        → Step checks s' j e s''
        → s''.inner.tail + 2 ^ pow < 2 ^ 63
        → Others s s''

module _ {ℓ κ ρ} {S : Type ℓ} {R : Type κ} {E : Type ρ} where
  -- What a waiter may do with the operation that it gets: call it until it succeeds, or give up.
  pub data Answered (op : S → Outcome (Option R × S)) (Meanwhile : S → S → Type ℓ)
      : S → Result R E → S → Type (ℓ ⊔ κ ⊔ ρ) where
    returned : {s s' : S} {r : R} → op s ≡ done (some r, s') → Answered op Meanwhile s (ok r) s'
    gave_up : {s : S} (e : E) → Answered op Meanwhile s (err e) s
    failed :
        {s s' s'' : S} {r : Result R E}
        → op s ≡ done (none, s')
        → Answered op Meanwhile s' r s''
        → Answered op Meanwhile s r s''
    passed :
        {s s' s'' : S} {r : Result R E}
        → Meanwhile s s'
        → Answered op Meanwhile s' r s''
        → Answered op Meanwhile s r s''
