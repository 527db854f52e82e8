-- ===== src/Queue/Spsc/Steps.antt =====
-- The runs of algors-queue/src/spsc.rs: any order of the pieces of the calls of the two threads.
use algors.Prelude.{ℕ, ◌≡◌, List, [], ◌∷◌, ◌++◌, Bool, done}
use algors.Queue.Spsc.{
  System, Event, silent, pushed, popped, push_idle, pop_idle, new_spsc, begin_push, advance_push,
  begin_pop, advance_pop,
}

module _ {ℓ} {A : Type ℓ} (checks : Bool) where
  -- One of the threads starts a call, or goes on with the one that it is in.
  pub data Step (s : System A) : Event A → System A → Type ℓ where
    call_push : (v : A) → s.pushing ≡ push_idle → Step s silent (begin_push s v)
    go_push : {e : Event A} {s' : System A} → advance_push checks s ≡ done (e, s') → Step s e s'
    call_pop : s.popping ≡ pop_idle → Step s silent (begin_pop s)
    go_pop : {e : Event A} {s' : System A} → advance_pop checks s ≡ done (e, s') → Step s e s'

  -- What `new_spsc` and then some steps lead to, with the events so far, the last one first.
  pub data Reach (pow : ℕ) : List (Event A) → System A → Type ℓ where
    start : {s : System A} → new_spsc pow ≡ done s → Reach pow [] s
    later :
        {es : List (Event A)} {e : Event A} {s s' : System A}
        → Reach pow es s
        → Step s e s'
        → Reach pow (e ∷ es) s'

module _ {ℓ} {A : Type ℓ} where
  -- The values of the calls of `try_push` that ended with `Ok`, in their order.
  unfoldable pub accepted : List (Event A) → List A
  accepted [] = []
  accepted (pushed v ∷ es) = accepted es ++ v ∷ []
  accepted (_ ∷ es) = accepted es

  -- The values that calls of `try_pop` returned, in their order.
  unfoldable pub delivered : List (Event A) → List A
  delivered [] = []
  delivered (popped v ∷ es) = delivered es ++ v ∷ []
  delivered (_ ∷ es) = delivered es
