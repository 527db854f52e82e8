-- ===== src/Utils/Tests.antt =====
-- Waits for a number that other threads count up.
use algors.Prelude.{
  ℕ, ◌+◌, ◌≡◌, refl, Option, none, some, true, arith, Outcome, done, leb, if◌then◌else◌,
}
use algors.Utils.Backoff.{Backoff, spun, yielded, spin_for, saturating_add, spin, pause}
use algors.Utils.Waiter.{spin_wait, yield_wait}
use algors.Utils.Waiter.Results.{Succeeds, at_once, later, waits-Succeeds}

abbrev late : Backoff
late = record { count = 7 }

late_pauses :
    (pause true true late ≡ done (yielded, record { count = 8 }))
    × (spin true late ≡ done (spun 64, record { count = 8 }))
unfolding pause spin spin_for saturating_add
late_pauses = (refl, refl)

-- The operation succeeds from 2 on.
abbrev op : ℕ → Outcome (Option ℕ × ℕ)
op n = done (if leb 2 n then some n else none, n)

succeeds : Succeeds op (λ n. n + 1) 2 0 2 2
succeeds = later refl (later refl (at_once refl))

waits-Succeeds_example :
    (spin_wait op (λ n. n + 1) true 3 0 ≡ done (2, 2))
    × (yield_wait op (λ n. n + 1) true true 3 0 ≡ done (2, 2))
waits-Succeeds_example = waits-Succeeds op (λ n. n + 1) true true 3 2 0 2 2 succeeds (omega arith)
