-- ===== src/Queue/Spsc/Wait.antt =====
-- `push` and `pop` of algors-queue/src/spsc.rs, which retry by a waiter. The waiter is a parameter; between two
-- of its attempts the other thread goes on.
use algors.Prelude.{
  ℕ, ◌^◌, ◌<◌, ◌≡◌, refl, sym, ap, ◌∙◌, subst, List, [], ◌∷◌, ◌++◌, Option, none, some, Bool, true,
  false, length, Outcome, done, panic, ◌>>=◌, YieldsOr, YieldsOr-done, Whenever, Whenever-bind,
  Whenever-if, Whenever-done, ended,
}
use algors.Queue.Spsc.{
  Inner, System, Pushing, push_idle, Popping, pop_idle, pop_reload, pop_read, pop_release, Event,
  silent, pushed, refused, popped, found_empty, is_drained, mask, take_slot, increment, begin_pop,
  advance_pop, try_push, try_pop,
}
use algors.Queue.Spsc.Invariant.{IsQueue, Spec}
use algors.Queue.Spsc.Push.{Explained}
use algors.Queue.Spsc.Pop.{begin_pop-IsQueue, advance_pop-Explained}
use mathlib.Core.List.{append_assoc}
use algors.Queue.Spsc.TryPop.{begin_pop-busy}

-- `Result<T, E>`
pub data Result {ℓ κ} (T : Type ℓ) (E : Type κ) : Type (ℓ ⊔ κ) where
  ok : T → Result T E
  err : E → Result T E

module _ {ℓ} {A : Type ℓ} (checks : Bool) where
  -- The closure of `push`: the value is in `store` while it is not pushed. A call of `try_push` ends with one
  -- of two events.
  unfoldable pub attempt : System A × Option A → Outcome (Option (Unit {0}) × (System A × Option A))
  attempt (s, none) = done (none, (s, none))
  attempt (s, some val) = try_push checks s val >>= λ (e, s'). done (elim e [
    | refused v ↦ (none, (s', some v))
    | silent ↦ (none, (s', none))
    | pushed v ↦ (some tt, (s', none))
    | popped v ↦ (none, (s', none))
    | found_empty ↦ (none, (s', none))
  ])

  -- What the consumer does meanwhile: pieces of its calls.
  pub data Consumes : System A → System A → Type ℓ where
    stays : {s : System A} → Consumes s s
    calls : {s s' : System A} → Consumes s s' → s'.popping ≡ pop_idle → Consumes s (begin_pop s')
    goes_on :
        {s s' s'' : System A} {e : Event A}
        → Consumes s s'
        → advance_pop checks s' ≡ done (e, s'')
        → Consumes s s''

module _ {ℓ κ} {A : Type ℓ} {E : Type κ} (checks : Bool) where
  -- `push`, by the waiter's `wait_for`: its result, whether the notifier is called, and the system.
  unfoldable pub push :
      ((System A × Option A → Outcome (Option (Unit {0}) × (System A × Option A)))
        → System A × Option A
        → Outcome (Result (Unit {0}) E × (System A × Option A)))
      → System A
      → A
      → Outcome (Result (Unit {0}) (A × E) × Bool × System A)
  push wait_for s val = wait_for (attempt checks) (s, some val) >>= λ (res, (s', store)). elim res [
    | ok x ↦ done (ok tt, true, s')
    | err e ↦ elim store [ none ↦ panic | some v ↦ done (err (v, e), false, s') ]
  ]

  -- `pop`
  unfoldable pub pop :
      ((System A → Outcome (Option A × System A)) → System A → Outcome (Result A E × System A))
      → System A
      → Outcome (Result A E × Bool × System A)
  pop wait_for s =
      wait_for
        (λ s. try_pop checks s >>= λ (e, s'). done (elim e [
          | popped v ↦ (some v, s')
          | found_empty ↦ (none, s')
          | silent ↦ (none, s')
          | pushed v ↦ (none, s')
          | refused v ↦ (none, s')
        ]))
        s
      >>= λ (res, s'). elim res [
        | ok val ↦ done (ok val, true, s')
        | err e ↦ done (err e, false, s')
      ]

  -- What a waiter may do with the operation that it gets: call it until it succeeds, or give up.
  pub data Answered (op : System A × Option A → Outcome (Option (Unit {0}) × (System A × Option A)))
      : System A × Option A → Result (Unit {0}) E → System A × Option A → Type (ℓ ⊔ κ) where
    returned : {s s' : System A × Option A} → op s ≡ done (some tt, s') → Answered op s (ok tt) s'
    gave_up : {s : System A × Option A} (e : E) → Answered op s (err e) s
    failed :
        {s s' s'' : System A × Option A} {r : Result (Unit {0}) E}
        → op s ≡ done (none, s')
        → Answered op s' r s''
        → Answered op s r s''
    passed :
        {s s' : System A} {store : Option A} {s'' : System A × Option A} {r : Result (Unit {0}) E}
        → Consumes checks s s'
        → Answered op (s', store) r s''
        → Answered op (s, store) r s''

module _ {ℓ} {A : Type ℓ} where
  -- `q'` is what is left of `q`.
  abbrev pub IsLeft : List A → List A → Type ℓ
  IsLeft q q' = (taken : List A) × (q ≡ taken ++ q')

  pub IsLeft-trans : (q p r : List A) → IsLeft q p → IsLeft p r → IsLeft q r
  IsLeft-trans q p r (xs, e) (ys, f) =
      (xs ++ ys, e ∙ ap (λ k. xs ++ k) f ∙ sym (append_assoc xs ys r))

  abbrev IsPopEvent : Event A → Type 0
  IsPopEvent silent = Unit {0}
  IsPopEvent (pushed v) = ⊥
  IsPopEvent (refused v) = ⊥
  IsPopEvent (popped v) = Unit {0}
  IsPopEvent found_empty = Unit {0}

  pop-events :
      (checks : Bool) (inner : Inner A) (hc tc : ℕ) (p : Pushing A) (c : Popping A)
      → Whenever
          (λ (e, s'). IsPopEvent e × (s'.pushing ≡ p))
          (advance_pop checks
            (record { inner = inner; head_cache = hc; tail_cache = tc; pushing = p; popping = c }))
  unfolding advance_pop
  pop-events checks inner hc tc p pop_idle = ended (tt, refl)
  pop-events checks inner hc tc p (pop_reload n) =
      Whenever-if (is_drained n inner.tail) _ _ (tt, refl) (tt, refl)
  pop-events checks inner hc tc p (pop_read n) =
      Whenever-bind (take_slot inner (mask inner n)) _ λ (v, inner'). ended (tt, refl)
  pop-events checks inner hc tc p (pop_release n v) =
      Whenever-bind (increment checks n) _ λ h'. ended (tt, refl)

  Spec-IsLeft :
      (room : ℕ) (q : List A) (e : Event A) (q' : List A)
      → IsPopEvent e
      → Spec room q e q'
      → IsLeft q q'
  Spec-IsLeft room q silent q' is same = ([], sym same)
  Spec-IsLeft room q (pushed v) q' is spec = absurd is
  Spec-IsLeft room q (refused v) q' is spec = absurd is
  Spec-IsLeft room q (popped v) q' is first = (v ∷ [], first)
  Spec-IsLeft room q found_empty q' is (before, after) = ([], before ∙ sym after)

  -- The consumer takes some values, and leaves the producer where it is.
  pub Consumes-IsLeft :
      (checks : Bool) (pow : ℕ) {s s' : System A} (q : List A)
      → IsQueue pow s q
      → Consumes checks s s'
      → (q' : List A) × IsLeft q q' × IsQueue pow s' q' × (s'.pushing ≡ s.pushing)
  Consumes-IsLeft checks pow q inv stays = (q, ([], refl), inv, refl)
  Consumes-IsLeft checks pow q inv (calls {s' = m} c idle) =
      let (q', left, inv', same) = Consumes-IsLeft checks pow q inv c in
      (q', left, begin_pop-IsQueue pow m q' inv' idle, (begin_pop-busy m).0 ∙ same)
  Consumes-IsLeft checks pow q inv (goes_on {s' = m} {s'' = l} {e = e} c eq) =
      let (q', left, inv', same) = Consumes-IsLeft checks pow q inv c in
      let (q'', inv'', spec) : Explained pow q' (e, l) = YieldsOr-done (
        subst (YieldsOr checks (Explained pow q')) eq
          (advance_pop-Explained checks pow m q' inv')) in
      let (is, kept) = Whenever-done (
        subst (Whenever (λ (e, s'). IsPopEvent e × (s'.pushing ≡ m.pushing))) eq
          (pop-events checks m.inner m.head_cache m.tail_cache m.pushing m.popping)) in
      (q'', IsLeft-trans q q' q'' left (Spec-IsLeft (2 ^ pow) q' e q'' is spec), inv'', kept ∙ same)

  -- What a wait with the value `val` comes to: the value is in the queue and no longer in the store, or it is
  -- in the store and the queue has lost values to the consumer only.
  abbrev pub Ends {κ} :
      {E : Type κ} → ℕ → List A → A → Result (Unit {0}) E → System A × Option A → Type ℓ
  Ends pow q val (ok x) (s', store) =
      (q' : List A) × IsLeft q q'
      × (length q' < 2 ^ pow)
      × IsQueue pow s' (q' ++ val ∷ [])
      × (s'.pushing ≡ push_idle)
  Ends pow q val (err e) (s', store) =
      (q' : List A) × IsLeft q q'
      × (store ≡ some val)
      × IsQueue pow s' q'
      × (s'.pushing ≡ push_idle)
