-- ===== src/Utils/Backoff.antt =====
-- algors-utils/src/backoff.rs. A pause is what it does: so many calls of `spin_loop`, or one of `yield_now`.
pub mod Bounds
use algors.Prelude.{
  ℕ, ◌+◌, ◌-◌, ◌%◌, ◌^◌, Bool, Outcome, done, panic, ◌>>=◌, min, ltb, leb, ◌==◌, if◌then◌else◌,
}

abbrev pub spin_max : ℕ
spin_max = 6

abbrev pub yield_max : ℕ
yield_max = 8

-- The number of values of a `u32`.
abbrev pub u32_values : ℕ
u32_values = 2 ^ 32

-- The rounds of `0..(1 << pow)` for a shift of an `i32` by less than its width: the last one is negative.
abbrev pub rounds : ℕ → ℕ
rounds pow = if pow == 31 then 0 else 2 ^ pow

-- `spin_for`. A shift by the width or more panics, or, without overflow checks, uses the low bits.
unfoldable pub spin_for : Bool → ℕ → Outcome ℕ
spin_for checks pow =
    if ltb pow 32 then done (rounds pow) else (if checks then panic else done (rounds (pow % 32)))

pub record Backoff : Type 0 where
  pub count : ℕ

pub data Pause : Type 0 where
  spun : ℕ → Pause
  yielded : Pause

unfoldable pub new : Backoff
new = record { count = 0 }

unfoldable pub saturating_add : ℕ → ℕ → ℕ
saturating_add a b = min (a + b) (u32_values - 1)

unfoldable pub spin : Bool → Backoff → Outcome (Pause × Backoff)
spin checks b = spin_for checks (min b.count spin_max) >>= λ n.
    done (spun n, record { count = saturating_add b.count 1 })

-- `pause`, with or without the feature `std`.
unfoldable pub pause : Bool → Bool → Backoff → Outcome (Pause × Backoff)
pause std checks b =
    let spins = spin_for checks b.count >>= λ n. done (spun n) in
    let at_limit = spin_for checks (min b.count spin_max) >>= λ n. done (spun n) in
    (if leb b.count spin_max then spins else if std then done yielded else at_limit) >>= λ p.
    done (p, record { count = saturating_add b.count 1 })

-- `done`
unfoldable pub is_done : Backoff → Bool
is_done b = leb yield_max b.count

unfoldable pub reset : Backoff → Backoff
reset b = record { count = 0 }
