-- ===== src/Queue/Spsc/Fifo.antt =====
-- Every run of algors-queue/src/spsc.rs is a run of a queue of at most 2 ^ pow values.
use mathlib.Core.List.{append_assoc}
use algors.Prelude.{
  ℕ, ◌^◌, ◌≤◌, ◌≡◌, refl, sym, ap, ◌∙◌, subst, inl, inr, List, [], ◌∷◌, ◌++◌, Bool, Bool-cases,
  arith, ltb, length, done, panic, Yields, YieldsOr, YieldsOr-done, Yields-done,
}
use algors.Queue.Spsc.{
  System, Event, silent, pushed, refused, popped, found_empty, new, new_spsc, advance_push,
  advance_pop,
}
use algors.Queue.Spsc.Steps.{
  Step, call_push, go_push, call_pop, go_pop, Reach, start, later, accepted, delivered,
}
use algors.Queue.Spsc.Invariant.{IsQueue, Spec, new_spsc-IsQueue}
use algors.Queue.Spsc.Push.{Explained, begin_push-IsQueue, advance_push-Explained}
use algors.Queue.Spsc.Pop.{begin_pop-IsQueue, advance_pop-Explained}

module _ {ℓ} {A : Type ℓ} where
  -- A step of either thread is a step of the queue.
  pub Step-Explained :
      (checks : Bool) (pow : ℕ) {s s' : System A} {e : Event A} (q : List A)
      → IsQueue pow s q
      → Step checks s e s'
      → Explained pow q (e, s')
  Step-Explained checks pow {s = s} q inv (call_push v idle) =
      (q, begin_push-IsQueue pow s q v inv idle, refl)
  Step-Explained checks pow {s = s} q inv (go_push eq) =
      YieldsOr-done
        (subst (YieldsOr checks (Explained pow q)) eq (advance_push-Explained checks pow s q inv))
  Step-Explained checks pow {s = s} q inv (call_pop idle) =
      (q, begin_pop-IsQueue pow s q inv idle, refl)
  Step-Explained checks pow {s = s} q inv (go_pop eq) =
      YieldsOr-done
        (subst (YieldsOr checks (Explained pow q)) eq (advance_pop-Explained checks pow s q inv))

  -- The queue holds the values that were accepted and not yet delivered.
  events-queue :
      (room : ℕ) (es : List (Event A)) (q q' : List A) (e : Event A)
      → accepted es ≡ delivered es ++ q
      → Spec room q e q'
      → accepted (e ∷ es) ≡ delivered (e ∷ es) ++ q'
  unfolding accepted delivered
  events-queue room es q q' silent h s = h ∙ ap (λ k. delivered es ++ k) (sym s)
  events-queue room es q q' (pushed v) h (lt, s) =
      ap (λ k. k ++ v ∷ []) h
      ∙ append_assoc (delivered es) q (v ∷ [])
      ∙ ap (λ k. delivered es ++ k) (sym s)
  events-queue room es q q' (refused v) h (full, s) = h ∙ ap (λ k. delivered es ++ k) (sym s)
  events-queue room es q q' (popped v) h s =
      h ∙ ap (λ k. delivered es ++ k) s ∙ sym (append_assoc (delivered es) (v ∷ []) q')
  events-queue room es q q' found_empty h (before, after) =
      h ∙ ap (λ k. delivered es ++ k) (before ∙ sym after)

  start-IsQueue : (pow : ℕ) (s : System A) → new_spsc pow ≡ done s → IsQueue pow s []
  unfolding new_spsc new
  start-IsQueue pow s e = elim (Bool-cases (ltb pow 64)) [
    | inl fits ↦ Yields-done (
        subst (Yields (λ (t : System A). IsQueue pow t [])) e (new_spsc-IsQueue pow (ground arith)))
    | inr large ↦ let clash : panic ≡ done s = rw large at e in cc
  ]

  pub Reach-IsQueue :
      (checks : Bool) (pow : ℕ) {es : List (Event A)} {s : System A}
      → Reach checks pow es s
      → (q : List A) × IsQueue pow s q × (accepted es ≡ delivered es ++ q)
  unfolding accepted delivered
  Reach-IsQueue checks pow (start {s = s} e) = ([], start-IsQueue pow s e, refl)
  Reach-IsQueue checks pow (later {es = es} {e = e} r step) =
      let (q, inv, events) = Reach-IsQueue checks pow r in
      let (q', inv', spec) = Step-Explained checks pow q inv step in
      (q', inv', events-queue (2 ^ pow) es q q' e events spec)

  -- In every run, with any order of the pieces of the calls, the values that `try_pop` returned are the
  -- first of those that `try_push` accepted, in the same order, and at most 2 ^ pow more were accepted.
  pub first_in_first_out :
      (checks : Bool) (pow : ℕ) (es : List (Event A)) (s : System A)
      → Reach checks pow es s
      → (q : List A) × (length q ≤ 2 ^ pow) × (accepted es ≡ delivered es ++ q)
  first_in_first_out checks pow es s r =
      let (q, inv, events) = Reach-IsQueue checks pow r in (q, inv.fits, events)

  -- In every state of a run, the next piece of either call neither reads a slot with no value nor accesses
  -- one out of bounds. It does on the queue of the accepted values what its event says: a value is
  -- accepted only while there is room, and refused only while the queue is full; the first one is
  -- delivered; and the queue is found empty only while it is. It panics only in a build with overflow
  -- checks.
  pub pieces-Explained :
      (checks : Bool) (pow : ℕ) (es : List (Event A)) (s : System A)
      → Reach checks pow es s
      → (q : List A) × (accepted es ≡ delivered es ++ q)
        × YieldsOr checks (Explained pow q) (advance_push checks s)
        × YieldsOr checks (Explained pow q) (advance_pop checks s)
  pieces-Explained checks pow es s r =
      let (q, inv, events) = Reach-IsQueue checks pow r in
      (
        q,
        events,
        advance_push-Explained checks pow s q inv,
        advance_pop-Explained checks pow s q inv,
      )
