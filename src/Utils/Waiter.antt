-- ===== src/Utils/Waiter.antt =====
-- algors-utils/src/waiter.rs. The operation that is waited for is a function on a state of all threads; what
-- the others do while this one pauses is a parameter. The loops take fuel.
pub mod Results
use algors.Prelude.{
  ℕ, zero, suc, ◌+◌, ◌^◌, Option, none, some, Bool, true, false, Outcome, done, panic, exhausted,
  ◌>>=◌, ◌==◌, if◌then◌else◌,
}
use algors.Utils.Backoff
use algors.Utils.Backoff.{Backoff, Pause, spin, pause, is_done, reset}

module _ {ℓ κ} {S : Type ℓ} {A : Type κ} (op : S → Outcome (Option A × S)) (meanwhile : S → S) where
  -- The loop of `SpinWait::wait_for` and `YieldWait::wait_for`, with the pause that they make.
  unfoldable pub retry : (Backoff → Outcome (Pause × Backoff)) → ℕ → Backoff → S → Outcome (A × S)
  retry pauses zero backoff s = exhausted
  retry pauses (suc fuel) backoff s = op s >>= λ (res, s'). elim res [
    | some v ↦ done (v, s')
    | none ↦ pauses backoff >>= λ (p, backoff'). retry pauses fuel backoff' (meanwhile s')
  ]

  -- `SpinWait::wait_for`
  unfoldable pub spin_wait : Bool → ℕ → S → Outcome (A × S)
  spin_wait checks fuel s = retry (λ b. spin checks b) fuel Backoff.new s

  -- `YieldWait::wait_for`, with or without the feature `std`.
  unfoldable pub yield_wait : Bool → Bool → ℕ → S → Outcome (A × S)
  yield_wait std checks fuel s = retry (λ b. pause std checks b) fuel Backoff.new s

  -- `BlockingWait`: its number under the mutex, and what happens until a call of `Condvar::wait` returns.
  module _ (state : S → ℕ) (sleep : S → S) where
    -- The inner loop, until the number is another one.
    unfoldable pub sleep_while : ℕ → ℕ → S → Outcome S
    sleep_while zero prev s = exhausted
    sleep_while (suc fuel) prev s = elim (state s == prev) [
      | true ↦ sleep_while fuel prev (sleep s)
      | false ↦ done s
    ]

    -- The loop of `BlockingWait::wait_for`; each wait in it takes as much fuel as is left.
    unfoldable pub blocking_loop : Bool → ℕ → Backoff → S → Outcome (A × S)
    blocking_loop checks zero backoff s = exhausted
    blocking_loop checks (suc fuel) backoff s = elim (is_done backoff) [
      | false ↦ op s >>= λ (res, s'). elim res [
        | some v ↦ done (v, s')
        | none ↦ spin checks backoff >>= λ (p, backoff').
            blocking_loop checks fuel backoff' (meanwhile s')
      ]
      | true ↦
          let prev = state s in
          op s >>= λ (res, s'). elim res [
            | some v ↦ done (v, s')
            | none ↦ sleep_while fuel prev (meanwhile s') >>= λ s''.
                blocking_loop checks fuel (reset backoff) (meanwhile s'')
          ]
    ]

    unfoldable pub blocking_wait : Bool → ℕ → S → Outcome (A × S)
    blocking_wait checks fuel s = blocking_loop checks fuel Backoff.new s

-- `BlockingWait::notify`: the number that it leaves. A `u64` at its largest value panics or wraps around.
unfoldable pub notify : Bool → ℕ → Outcome ℕ
notify checks state =
    if state + 1 == 2 ^ 64 then (if checks then panic else done 0) else done (state + 1)
