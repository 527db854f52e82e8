-- ===== src/Utils/Backoff/Bounds.antt =====
-- The bounds of algors-utils/src/backoff.rs: how long a pause is, and when a thread gives up.
use algors.Prelude.{
  ℕ, ◌+◌, ◌-◌, ◌^◌, ◌≤◌, ◌<◌, ◌≡◌, refl, Bool, true, false, arith, Outcome, done, ◌>>=◌, Yields,
  yields, Yields-bind, Yields-mono, Yields-if, dec_lt, length, List, [], ◌∷◌, min, ltb, leb, ◌==◌,
  if◌then◌else◌,
}
use algors.Prelude.Bits.{pow_mono}
use algors.Utils.Backoff.{
  spin_max, u32_values, spin_for, Backoff, Pause, spun, yielded, new, saturating_add, spin, pause,
  is_done, reset,
}

-- At most 64 rounds, or one yield.
abbrev pub IsShort : Pause → Type 0
IsShort (spun n) = n ≤ 64
IsShort yielded = Unit {0}

at_most : (pow : ℕ) → pow ≤ spin_max → 2 ^ pow ≤ 64
at_most pow le = elim (dec_lt pow spin_max) [
  | yes p ↦ omega (arith, pow_mono pow spin_max p)
  | no p ↦ let e : pow ≡ spin_max = omega arith in rw e (omega arith)
]

spin_for-exact :
    (checks : Bool) (pow : ℕ)
    → pow ≤ spin_max
    → Yields (λ n. (n ≡ 2 ^ pow) × (n ≤ 64)) (spin_for checks pow)
unfolding spin_for
spin_for-exact checks pow le =
    let below : ltb pow 32 ≡ true = ground arith in
    let small : (pow == 31) ≡ false = ground arith in
    rw (below, small) (yields (refl, at_most pow le))

-- What a pause leaves: the counter goes up by one, and stops at the largest one.
abbrev pub IsCounted : Backoff → Pause × Backoff → Type 0
IsCounted b (p, b') = IsShort p × (b'.count ≡ min (b.count + 1) (u32_values - 1))

spin-IsCounted : (checks : Bool) (b : Backoff) → Yields (IsCounted b) (spin checks b)
unfolding spin saturating_add
spin-IsCounted checks b =
    Yields-bind (spin_for-exact checks (min b.count spin_max) (omega arith))
      λ n (e, le). yields (le, refl)

pause-IsCounted : (std checks : Bool) (b : Backoff) → Yields (IsCounted b) (pause std checks b)
unfolding pause saturating_add
pause-IsCounted std checks b =
    Yields-bind
      (Yields-if {P = IsShort} (leb b.count spin_max)
        (λ few.
          Yields-bind (spin_for-exact checks b.count (ground arith))
            λ n (e, le). yields {a = spun n} le)
        λ many.
          Yields-if std (λ yes_std. yields {a = yielded} tt)
            λ no_std.
              Yields-bind (spin_for-exact checks (min b.count spin_max) (omega arith))
                λ n (e, le). yields {a = spun n} le)
      λ p short. yields (short, refl)

-- A call of `spin` or of `pause` on a counter with any value never panics, with or without overflow checks and
-- the feature `std`. It spins at most 64 rounds or yields once, and counts once, up to the largest counter.
pub pauses-AreCounted :
    (std checks : Bool) (b : Backoff)
    → Yields (IsCounted b) (spin checks b) × Yields (IsCounted b) (pause std checks b)
pauses-AreCounted std checks b = (spin-IsCounted checks b, pause-IsCounted std checks b)

-- Calls of `spin` (true) and of `pause` (false), one after another.
unfoldable pub pause_all : Bool → Bool → List Bool → Backoff → Outcome Backoff
pause_all std checks [] b = done b
pause_all std checks (spins ∷ ps) b =
    (if spins then spin checks b else pause std checks b) >>= λ (p, b'). pause_all std checks ps b'

pause_all-count :
    (std checks : Bool) (ps : List Bool) (b : Backoff)
    → b.count < u32_values
    → Yields
        (λ b'. b'.count ≡ min (b.count + length ps) (u32_values - 1))
        (pause_all std checks ps b)
unfolding pause_all
pause_all-count std checks [] b lt = yields (omega arith)
pause_all-count std checks (spins ∷ ps) b lt =
    Yields-bind (Yields-if spins (λ t. spin-IsCounted checks b) (λ f. pause-IsCounted std checks b))
      λ (p, b') (short, counted).
        Yields-mono (λ b'' e. omega (arith, e, counted))
          (pause_all-count std checks ps b' (omega (arith, counted)))

-- A new or reset counter is done exactly after eight or more pauses, of either kind and in any order.
pub is_done-pause_all :
    (std checks : Bool) (ps : List Bool) (b : Backoff)
    → Yields (λ b'. is_done b' ≡ leb 8 (length ps)) (pause_all std checks ps new)
      × Yields (λ b'. is_done b' ≡ leb 8 (length ps)) (pause_all std checks ps (reset b))
unfolding is_done new reset
is_done-pause_all std checks ps b = (
  Yields-mono (λ b' e. ground (arith, e))
      (pause_all-count std checks ps (record { count = 0 }) (omega arith)),
  Yields-mono (λ b' e. ground (arith, e))
      (pause_all-count std checks ps (record { count = 0 }) (omega arith)),
)
