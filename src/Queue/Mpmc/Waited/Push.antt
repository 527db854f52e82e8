-- ===== src/Queue/Mpmc/Waited/Push.antt =====
-- `push` of algors-queue/src/mpmc.rs.
use algors.Prelude.{
  ℕ, ◌+◌, ◌^◌, ◌<◌, ◌≡◌, ◌⊎◌, refl, sym, ap, ◌∙◌, subst, inl, inr, List, [], ◌∷◌, ◌++◌, Option,
  none, some, Bool, true, false, arith, length, Outcome, done, panic, Yields, Yields-bind,
  Yields-done, yields,
}
use algors.Queue.Mpmc.{outside, System}
use algors.Queue.Mpmc.Invariant.{IsQueue}
use algors.Queue.Mpmc.Alone.Push.{try_push-PushesAlone}
use algors.Queue.Mpmc.Wait.{
  attempt, push, Others, stays, Answered, returned, gave_up, failed, passed,
}
use algors.Queue.Mpmc.Waited.{Extends, Extends-trans, Extends-same, IsAt, Others-trans, Others-IsAt}
use algors.Queue.Spsc.Wait.{Result, ok, err}

module _ {ℓ} {A : Type ℓ} where
  -- One call of the closure.
  abbrev Attempts :
      ℕ → ℕ → System A → List A → A → Option (Unit {0}) × (System A × Option A) → Type ℓ
  Attempts pow i s vals val (res, (s', store)) =
      ((res ≡ some tt)
        × (length vals < s.inner.head + 2 ^ pow)
        × (s'.inner.head ≡ s.inner.head)
        × IsAt pow i s' (vals ++ val ∷ []))
      ⊎ ((res ≡ none) × (store ≡ some val) × (s' ≡ s))

  attempt-Attempts :
      (checks : Bool) (pow i : ℕ) (s : System A) (vals : List A) (val : A)
      → IsAt pow i s vals
      → s.inner.tail + 2 ^ pow < 2 ^ 63
      → Yields (Attempts pow i s vals val) (attempt checks (s, some val))
  unfolding attempt
  attempt-Attempts checks pow i s vals val (inv, out) small =
      Yields-bind
        (try_push-PushesAlone checks pow s.inner s.calls vals i inv out (omega (arith, inv.count))
          val)
        λ (e, inner') how. elim how [
          | inl (is, room, same, inv') ↦ rw is (yields (inl (refl, room, same, (inv', out))))
          | inr (is, same, full) ↦
              rw is (yields (inr (refl, refl, ap (λ n. record s { inner = n }) same)))
        ]

  -- What a wait with the value `val` comes to: the value was accepted behind those that were accepted before
  -- and meanwhile, and is no longer in the store; or it is in the store and was not accepted.
  abbrev Ends {κ} :
      {E : Type κ}
      → Bool
      → ℕ
      → ℕ
      → System A
      → List A
      → A
      → Result (Unit {0}) E
      → System A × Option A
      → Type ℓ
  Ends checks pow i s vals val (ok x) (s', store) =
      (vals' : List A) × Extends vals vals'
      × (length vals' < s'.inner.head + 2 ^ pow)
      × IsAt pow i s' (vals' ++ val ∷ [])
  Ends checks pow i s vals val (err e) (s', store) =
      (vals' : List A) × Extends vals vals'
      × (store ≡ some val)
      × Others checks pow i s s'
      × IsAt pow i s' vals'

  later-Ends {κ} :
      {E : Type κ} (checks : Bool) (pow i : ℕ) (s m : System A) (vals vals' : List A) (val : A)
      (r : Result (Unit {0}) E) (st : System A × Option A)
      → Others checks pow i s m
      → Extends vals vals'
      → Ends checks pow i m vals' val r st
      → Ends checks pow i s vals val r st
  later-Ends checks pow i s m vals vals' val (ok x) st o ext (vals'', ext', room, at) =
      (vals'', Extends-trans vals vals' vals'' ext ext', room, at)
  later-Ends checks pow i s m vals vals' val (err e) st o ext (vals'', ext', kept, o', at) =
      (vals'', Extends-trans vals vals' vals'' ext ext', kept, Others-trans checks pow i o o', at)

  -- What other threads do meanwhile; the store is the call's own.
  abbrev pub Meanwhile : Bool → ℕ → ℕ → System A × Option A → System A × Option A → Type ℓ
  Meanwhile checks pow i (s, store) (s', store') = Others checks pow i s s' × (store' ≡ store)

  Answered-Ends {κ} :
      {E : Type κ} (checks : Bool) (pow i : ℕ) (st st' : System A × Option A)
      (r : Result (Unit {0}) E) (vals : List A) (val : A)
      → IsAt pow i (st.0) vals
      → (st.0).inner.tail + 2 ^ pow < 2 ^ 63
      → st.1 ≡ some val
      → Answered (attempt checks) (Meanwhile checks pow i) st r st'
      → Ends checks pow i (st.0) vals val r st'
  Answered-Ends checks pow i (s, store) st' r vals val at small full (returned {r = x} e) =
      let e' : attempt checks (s, some val) ≡ done (some x, st') =
        ap (λ o. attempt checks (s, o)) (sym full) ∙ e in
      elim (Yields-done (
        subst (Yields (Attempts pow i s vals val)) e'
          (attempt-Attempts checks pow i s vals val at small))) [
            | inl (is, room, same, at') ↦ (vals, Extends-same vals vals refl, omega arith, at')
            | inr (is, kept, same) ↦ cc
          ]
  Answered-Ends checks pow i (s, store) st' r vals val at small full (gave_up e) =
      (vals, Extends-same vals vals refl, full, stays, at)
  Answered-Ends checks pow i (s, store) st' r vals val at small full (failed {s' = m} e h) =
      let e' : attempt checks (s, some val) ≡ done (none, m) =
        ap (λ o. attempt checks (s, o)) (sym full) ∙ e in
      elim (Yields-done (
        subst (Yields (Attempts pow i s vals val)) e'
          (attempt-Attempts checks pow i s vals val at small))) [
            | inl (is, room, same, at') ↦ cc
            | inr (is, kept, same) ↦
                subst (λ k. Ends checks pow i k vals val r st') same
                  (Answered-Ends checks pow i m st' r vals val
                    (subst (λ k. IsAt pow i k vals) (sym same) at)
                    (subst (λ (k : System A). k.inner.tail + 2 ^ pow < 2 ^ 63) (sym same) small)
                    kept h)
          ]
  Answered-Ends checks pow i (s, store) st' r vals val at small full
        (passed {s' = m} (others, kept) h) =
      let (vals', ext, at', small') = Others-IsAt checks pow i vals small at others in
      later-Ends checks pow i s (m.0) vals vals' val r st' others ext
        (Answered-Ends checks pow i m st' r vals' val at' small' (kept ∙ full) h)

  -- What `push` of `val` by thread `i` comes to. The flag says that the notifier is called.
  abbrev pub IsAccepted {κ} :
      {E : Type κ}
      → Bool
      → ℕ
      → ℕ
      → System A
      → List A
      → A
      → Result (Unit {0}) (A × E) × Bool × System A
      → Type ℓ
  IsAccepted checks pow i s vals val (ok x, notified, s') =
      (notified ≡ true)
      × ((vals' : List A) × Extends vals vals'
          × (length vals' < s'.inner.head + 2 ^ pow)
          × IsAt pow i s' (vals' ++ val ∷ []))
  IsAccepted checks pow i s vals val (err (v, e), notified, s') =
      (notified ≡ false)
      × (v ≡ val)
      × Others checks pow i s s'
      × ((vals' : List A) × Extends vals vals' × IsAt pow i s' vals')

  -- On a ring of two slots or more, if the waiter only calls its operation until it succeeds or gives up, and
  -- other threads go on only in between, with the counters below 2 ^ 63 - 2 ^ pow, `push` ends as the waiter
  -- does, and `unwrap` does not panic. With `Ok`, the value was accepted last, behind those that were accepted
  -- before and meanwhile, while fewer than 2 ^ pow values were unclaimed, and the notifier is called. With an
  -- error, the value is returned with it, only other threads have changed the system, and the notifier is not
  -- called.
  pub push-IsAccepted {κ} :
      {E : Type κ} (checks : Bool) (pow i : ℕ)
      (wait_for : (System A × Option A → Outcome (Option (Unit {0}) × (System A × Option A)))
        → System A × Option A
        → Outcome (Result (Unit {0}) E × (System A × Option A)))
      (s : System A) (vals : List A) (val : A)
      → IsQueue (2 ^ pow) s.inner s.calls vals
      → s.calls i ≡ outside
      → s.inner.tail + 2 ^ pow < 2 ^ 63
      → Yields
          (λ (r, st). Answered (attempt checks) (Meanwhile checks pow i) (s, some val) r st)
          (wait_for (attempt checks) (s, some val))
      → Yields (IsAccepted checks pow i s vals val) (push checks wait_for s val)
  unfolding push
  push-IsAccepted {E = E} checks pow i wait_for s vals val inv out small waits =
      Yields-bind waits λ (r, (s', store)) h.
        by_result r s' store
          (Answered-Ends checks pow i (s, some val) (s', store) r vals val (inv, out) small refl h)
    where
      by_result :
          (r : Result (Unit {0}) E) (s' : System A) (store : Option A)
          → Ends checks pow i s vals val r (s', store)
          → Yields (IsAccepted checks pow i s vals val) (elim r [
            | ok x ↦ done (ok tt, true, s')
            | err e ↦ elim store [ none ↦ panic | some v ↦ done (err (v, e), false, s') ]
          ])
      by_result (ok x) s' store ends = yields (refl, ends)
      by_result (err e) s' none (vals', ext, kept, o, at) = cc
      by_result (err e) s' (some v) (vals', ext, kept, o, at) =
          yields (refl, cc, o, (vals', ext, at))
