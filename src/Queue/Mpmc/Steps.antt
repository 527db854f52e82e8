-- ===== src/Queue/Mpmc/Steps.antt =====
-- The runs of algors-queue/src/mpmc.rs: any order of the pieces of the calls of any number of threads.
use algors.Prelude.{ℕ, ◌+◌, ◌≡◌, List, [], ◌∷◌, ◌++◌, Bool, done, ◌==◌, if◌then◌else◌}
use algors.Queue.Mpmc.{
  Inner, Call, outside, push_load, pop_load, Event, silent, claimed, popped, System, assign,
  advance, new_mpmc,
}

module _ {ℓ} {A : Type ℓ} (checks : Bool) where
  -- A thread starts a call, or goes on with the one that it is in.
  pub data Step (s : System A) : ℕ → Event A → System A → Type ℓ where
    call_push :
        (i : ℕ) (v : A)
        → s.calls i ≡ outside
        → Step s i silent (record s { calls = assign s.calls i (push_load v) })
    call_pop :
        (i : ℕ)
        → s.calls i ≡ outside
        → Step s i silent (record s { calls = assign s.calls i pop_load })
    goes_on :
        (i : ℕ) (weak : Bool) (lag : ℕ) {e : Event A} {inner' : Inner A} {c' : Call A}
        → advance checks weak lag s.inner (s.calls i) ≡ done (e, inner', c')
        → Step s i e (record { inner = inner'; calls = assign s.calls i c' })

  -- What `new_mpmc` and then some steps lead to, with the events so far and their threads, the last one
  -- first.
  pub data Reach (pow : ℕ) : List (ℕ × Event A) → System A → Type ℓ where
    start : {s : System A} → new_mpmc pow ≡ done s → Reach pow [] s
    later :
        {es : List (ℕ × Event A)} {i : ℕ} {e : Event A} {s s' : System A}
        → Reach pow es s
        → Step s i e s'
        → Reach pow ((i, e) ∷ es) s'

module _ {ℓ} {A : Type ℓ} where
  -- The values that claimed a slot, in the order of the claims.
  unfoldable pub accepted : List (ℕ × Event A) → List A
  accepted [] = []
  accepted ((i, claimed v) ∷ es) = accepted es ++ v ∷ []
  accepted (_ ∷ es) = accepted es

  -- The values that calls of `try_pop` returned, with their positions, the last one first.
  unfoldable pub delivered : List (ℕ × Event A) → List (ℕ × A)
  delivered [] = []
  delivered ((i, popped p v) ∷ es) = (p, v) ∷ delivered es
  delivered (_ ∷ es) = delivered es

  -- The positions of the values that calls of one thread returned, the last one first.
  unfoldable pub received : ℕ → List (ℕ × Event A) → List ℕ
  received j [] = []
  received j ((i, popped p v) ∷ es) = if i == j then p ∷ received j es else received j es
  received j (_ ∷ es) = received j es

  -- How often a position occurs.
  unfoldable pub times : ℕ → List (ℕ × A) → ℕ
  times p [] = 0
  times p ((q, v) ∷ xs) = (if q == p then 1 else 0) + times p xs
