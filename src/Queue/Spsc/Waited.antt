-- ===== src/Queue/Spsc/Waited.antt =====
-- What `push` of algors-queue/src/spsc.rs comes to, with any waiter and with a consumer that goes on meanwhile.
use algors.Prelude.{
  ℕ, ◌^◌, ◌<◌, ◌≡◌, ◌⊎◌, refl, sym, ap, ◌∙◌, subst, inl, inr, List, [], ◌∷◌, ◌++◌, Option, none,
  some, Bool, true, false, length, Outcome, done, panic, YieldsOr, YieldsOr-bind, YieldsOr-done,
  ran, Yields, Yields-bind, yields,
}
use algors.Queue.Spsc.{System, push_idle}
use algors.Queue.Spsc.Invariant.{IsQueue}
use algors.Queue.Spsc.TryPush.{try_push-Pushes}
use algors.Queue.Spsc.Wait.{
  Result, ok, err, attempt, push, Answered, returned, gave_up, failed, passed, IsLeft, IsLeft-trans,
  Consumes-IsLeft, Ends,
}

module _ {ℓ} {A : Type ℓ} where
  -- One call of the closure.
  abbrev Attempts : ℕ → List A → A → Option (Unit {0}) × (System A × Option A) → Type ℓ
  Attempts pow q val (res, (s', store)) =
      ((res ≡ some tt)
        × (length q < 2 ^ pow)
        × IsQueue pow s' (q ++ val ∷ [])
        × (s'.pushing ≡ push_idle))
      ⊎ ((res ≡ none) × (store ≡ some val) × IsQueue pow s' q × (s'.pushing ≡ push_idle))

  attempt-Attempts :
      (checks : Bool) (pow : ℕ) (s : System A) (q : List A) (val : A)
      → IsQueue pow s q
      → s.pushing ≡ push_idle
      → YieldsOr checks (Attempts pow q val) (attempt checks (s, some val))
  unfolding attempt
  attempt-Attempts checks pow s q val inv idle =
      YieldsOr-bind (try_push-Pushes checks pow s q val inv idle) λ (e, s') (idle', same, how).
        elim how [
          | inl (is, room, inv') ↦ rw is (ran (inl (refl, room, inv', idle')))
          | inr (is, full, inv') ↦ rw is (ran (inr (refl, refl, inv', idle')))
        ]

  left-Ends {κ} :
      {E : Type κ} (pow : ℕ) (q q' : List A) (val : A) (r : Result (Unit {0}) E)
      (st : System A × Option A)
      → IsLeft q q'
      → Ends pow q' val r st
      → Ends pow q val r st
  left-Ends pow q q' val (ok x) st left (q'', left', room, inv, idle) =
      (q'', IsLeft-trans q q' q'' left left', room, inv, idle)
  left-Ends pow q q' val (err e) st left (q'', left', kept, inv, idle) =
      (q'', IsLeft-trans q q' q'' left left', kept, inv, idle)

  Answered-Ends {κ} :
      {E : Type κ} (checks : Bool) (pow : ℕ) (st st' : System A × Option A)
      (r : Result (Unit {0}) E) (q : List A) (val : A)
      → IsQueue pow (st.0) q
      → (st.0).pushing ≡ push_idle
      → st.1 ≡ some val
      → Answered checks (attempt checks) st r st'
      → Ends pow q val r st'
  Answered-Ends checks pow (s, store) st' r q val inv idle full (returned e) =
      let e' : attempt checks (s, some val) ≡ done (some tt, st') =
        ap (λ o. attempt checks (s, o)) (sym full) ∙ e in
      elim (YieldsOr-done (
        subst (YieldsOr checks (Attempts pow q val)) e'
          (attempt-Attempts checks pow s q val inv idle))) [
            | inl (is, room, inv', idle') ↦ (q, ([], refl), room, inv', idle')
            | inr (is, kept, inv', idle') ↦ cc
          ]
  Answered-Ends checks pow (s, store) st' r q val inv idle full (gave_up e) =
      (q, ([], refl), full, inv, idle)
  Answered-Ends checks pow (s, store) st' r q val inv idle full (failed {s' = m} e h) =
      let e' : attempt checks (s, some val) ≡ done (none, m) =
        ap (λ o. attempt checks (s, o)) (sym full) ∙ e in
      elim (YieldsOr-done (
        subst (YieldsOr checks (Attempts pow q val)) e'
          (attempt-Attempts checks pow s q val inv idle))) [
            | inl (is, room, inv', idle') ↦ cc
            | inr (is, kept, inv', idle') ↦ Answered-Ends checks pow m st' r q val inv' idle' kept h
          ]
  Answered-Ends checks pow (s, store) st' r q val inv idle full (passed {s' = m} c h) =
      let (q', left, inv', same) = Consumes-IsLeft checks pow q inv c in
      left-Ends pow q q' val r st' left
        (Answered-Ends checks pow (m, store) st' r q' val inv' (same ∙ idle) full h)

  -- What `push` of `val` on the queue `q` comes to. The flag says that the notifier is called.
  abbrev pub IsPushed {κ} :
      {E : Type κ} → ℕ → List A → A → Result (Unit {0}) (A × E) × Bool × System A → Type ℓ
  IsPushed pow q val (ok x, notified, s') =
      (notified ≡ true)
      × ((q' : List A) × IsLeft q q'
          × (length q' < 2 ^ pow)
          × IsQueue pow s' (q' ++ val ∷ [])
          × (s'.pushing ≡ push_idle))
  IsPushed pow q val (err (v, e), notified, s') =
      (notified ≡ false)
      × (v ≡ val)
      × ((q' : List A) × IsLeft q q' × IsQueue pow s' q' × (s'.pushing ≡ push_idle))

  -- If the waiter returns, after it only called its operation until that succeeded or it gave up, and only the
  -- consumer went on in between, `push` returns as well, with or without overflow checks: `unwrap` does not panic. With `Ok`, the value was added once,
  -- behind what the consumer left of the queue, and the notifier is called. With an error, the value is
  -- returned with it, it was not added, and the notifier is not called.
  pub push-IsPushed {κ} :
      {E : Type κ} (checks : Bool) (pow : ℕ)
      (wait_for : (System A × Option A → Outcome (Option (Unit {0}) × (System A × Option A)))
        → System A × Option A
        → Outcome (Result (Unit {0}) E × (System A × Option A)))
      (s : System A) (q : List A) (val : A)
      → IsQueue pow s q
      → s.pushing ≡ push_idle
      → Yields
          (λ (r, st). Answered checks (attempt checks) (s, some val) r st)
          (wait_for (attempt checks) (s, some val))
      → Yields (IsPushed pow q val) (push checks wait_for s val)
  unfolding push
  push-IsPushed {E = E} checks pow wait_for s q val inv idle waits =
      Yields-bind waits λ (r, (s', store)) h.
        by_result r s' store
          (Answered-Ends checks pow (s, some val) (s', store) r q val inv idle refl h)
    where
      by_result :
          (r : Result (Unit {0}) E) (s' : System A) (store : Option A)
          → Ends pow q val r (s', store)
          → Yields (IsPushed pow q val) (elim r [
            | ok x ↦ done (ok tt, true, s')
            | err e ↦ elim store [ none ↦ panic | some v ↦ done (err (v, e), false, s') ]
          ])
      by_result (ok x) s' store ends = yields (refl, ends)
      by_result (err e) s' none (q', left, kept, inv', idle') = cc
      by_result (err e) s' (some v) (q', left, kept, inv', idle') =
          yields (refl, cc, (q', left, inv', idle'))
