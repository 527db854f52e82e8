-- ===== src/Queue/Mpmc/Waited/Pop.antt =====
-- `pop` of algors-queue/src/mpmc.rs.
use algors.Prelude.{
  ℕ, suc, ◌+◌, ◌^◌, ◌<◌, ◌≡◌, ◌⊎◌, refl, sym, ap, subst, inl, inr, List, Option, none, some, Bool,
  true, false, arith, get_elem?, Outcome, done, Yields, Yields-bind, Yields-done, yields,
}
use algors.Queue.Mpmc.{outside, System}
use algors.Queue.Mpmc.Invariant.{IsQueue}
use algors.Queue.Mpmc.Alone.Pop.{try_pop-PopsAlone}
use algors.Queue.Mpmc.Wait.{
  attempt_pop, pop, Others, stays, Answered, returned, gave_up, failed, passed,
}
use algors.Queue.Mpmc.Waited.{Extends, Extends-trans, Extends-same, IsAt, Others-trans, Others-IsAt}
use algors.Queue.Spsc.Wait.{Result, ok, err}

module _ {ℓ} {A : Type ℓ} where
  -- From `m`, the first unclaimed value was claimed, and it is `v`.
  abbrev pub Takes : ℕ → ℕ → List A → A → System A → System A → Type ℓ
  Takes pow i vals v m s' =
      (get_elem? vals m.inner.head ≡ some v)
      × (s'.inner.head ≡ suc m.inner.head)
      × IsAt pow i s' vals

  -- One call of the closure.
  abbrev Attempts : ℕ → ℕ → System A → List A → Option A × System A → Type ℓ
  Attempts pow i s vals (res, s') =
      ((v : A) × (res ≡ some v) × Takes pow i vals v s s') ⊎ ((res ≡ none) × (s' ≡ s))

  attempt_pop-Attempts :
      (checks : Bool) (pow i : ℕ) (s : System A) (vals : List A)
      → IsAt pow i s vals
      → s.inner.tail + 2 ^ pow < 2 ^ 63
      → Yields (Attempts pow i s vals) (attempt_pop checks s)
  unfolding attempt_pop
  attempt_pop-Attempts checks pow i s vals (inv, out) small =
      Yields-bind
        (try_pop-PopsAlone checks pow s.inner s.calls vals i inv out (omega (arith, inv.count)))
        λ (e, inner') how. elim how [
          | inl (v, is, val, next, inv') ↦ rw is (yields (inl (v, refl, (val, next, (inv', out)))))
          | inr (is, same, empty) ↦
              rw is (yields (inr (refl, ap (λ n. record s { inner = n }) same)))
        ]

  -- What a wait comes to, for the values that were accepted before.
  abbrev Ends {κ} : {E : Type κ} → Bool → ℕ → ℕ → System A → List A → Result A E → System A → Type ℓ
  Ends checks pow i s vals (ok v) s' =
      (m : System A) × (vals' : List A) × Extends vals vals'
      × Others checks pow i s m
      × Takes pow i vals' v m s'
  Ends checks pow i s vals (err e) s' =
      (vals' : List A) × Extends vals vals' × Others checks pow i s s' × IsAt pow i s' vals'

  later-Ends {κ} :
      {E : Type κ} (checks : Bool) (pow i : ℕ) (s m : System A) (vals vals' : List A)
      (r : Result A E) (s' : System A)
      → Others checks pow i s m
      → Extends vals vals'
      → Ends checks pow i m vals' r s'
      → Ends checks pow i s vals r s'
  later-Ends checks pow i s m vals vals' (ok v) s' o ext (at_m, vals'', ext', o', takes) = (
    at_m,
    vals'',
    Extends-trans vals vals' vals'' ext ext',
    Others-trans checks pow i o o',
    takes,
  )
  later-Ends checks pow i s m vals vals' (err e) s' o ext (vals'', ext', o', at) =
      (vals'', Extends-trans vals vals' vals'' ext ext', Others-trans checks pow i o o', at)

  Answered-Ends {κ} :
      {E : Type κ} (checks : Bool) (pow i : ℕ) (s s' : System A) (r : Result A E) (vals : List A)
      → IsAt pow i s vals
      → s.inner.tail + 2 ^ pow < 2 ^ 63
      → Answered (attempt_pop checks) (Others checks pow i) s r s'
      → Ends checks pow i s vals r s'
  Answered-Ends checks pow i s s' r vals at small (returned {r = x} e) =
      elim (Yields-done (
        subst (Yields (Attempts pow i s vals)) e
          (attempt_pop-Attempts checks pow i s vals at small))) [
            | inl (v, is, takes) ↦
                let same : v ≡ x = cc in
                (
                  s,
                  vals,
                  Extends-same vals vals refl,
                  stays,
                  subst (λ k. Takes pow i vals k s s') same takes,
                )
            | inr (is, same) ↦ cc
          ]
  Answered-Ends checks pow i s s' r vals at small (gave_up e) =
      (vals, Extends-same vals vals refl, stays, at)
  Answered-Ends checks pow i s s' r vals at small (failed {s' = m} e h) =
      elim (Yields-done (
        subst (Yields (Attempts pow i s vals)) e
          (attempt_pop-Attempts checks pow i s vals at small))) [
            | inl (v, is, takes) ↦ cc
            | inr (is, same) ↦
                subst (λ k. Ends checks pow i k vals r s') same
                  (Answered-Ends checks pow i m s' r vals
                    (subst (λ k. IsAt pow i k vals) (sym same) at)
                    (subst (λ (k : System A). k.inner.tail + 2 ^ pow < 2 ^ 63) (sym same) small) h)
          ]
  Answered-Ends checks pow i s s' r vals at small (passed {s' = m} others h) =
      let (vals', ext, at', small') = Others-IsAt checks pow i vals small at others in
      later-Ends checks pow i s m vals vals' r s' others ext
        (Answered-Ends checks pow i m s' r vals' at' small' h)

  -- What `pop` by thread `i` comes to. The flag says that the notifier is called.
  abbrev pub IsPopped {κ} :
      {E : Type κ} → Bool → ℕ → ℕ → System A → List A → Result A E × Bool × System A → Type ℓ
  IsPopped checks pow i s vals (ok v, notified, s') =
      (notified ≡ true)
      × ((m : System A) × (vals' : List A) × Extends vals vals'
          × Others checks pow i s m
          × Takes pow i vals' v m s')
  IsPopped checks pow i s vals (err e, notified, s') =
      (notified ≡ false)
      × ((vals' : List A) × Extends vals vals' × Others checks pow i s s' × IsAt pow i s' vals')

  -- On a ring of two slots or more, if the waiter only calls its operation until it succeeds or gives up, and
  -- other threads go on only in between, with the counters below 2 ^ 63 - 2 ^ pow, `pop` ends as the waiter
  -- does. With `Ok`, only other threads had gone on from `s` up to some system, of which it then claimed the
  -- first unclaimed value and nothing else; it returns that value, and the notifier is called. With an
  -- error, only other threads have changed the system, and the notifier is not called.
  pub pop-IsPopped {κ} :
      {E : Type κ} (checks : Bool) (pow i : ℕ)
      (wait_for : (System A → Outcome (Option A × System A))
        → System A
        → Outcome (Result A E × System A))
      (s : System A) (vals : List A)
      → IsQueue (2 ^ pow) s.inner s.calls vals
      → s.calls i ≡ outside
      → s.inner.tail + 2 ^ pow < 2 ^ 63
      → Yields
          (λ (r, s'). Answered (attempt_pop checks) (Others checks pow i) s r s')
          (wait_for (attempt_pop checks) s)
      → Yields (IsPopped checks pow i s vals) (pop checks wait_for s)
  unfolding pop
  pop-IsPopped {E = E} checks pow i wait_for s vals inv out small waits =
      Yields-bind waits
        λ (r, s') h. by_result r s' (Answered-Ends checks pow i s s' r vals (inv, out) small h)
    where
      by_result :
          (r : Result A E) (s' : System A)
          → Ends checks pow i s vals r s'
          → Yields
              (IsPopped checks pow i s vals)
              (elim r [ ok val ↦ done (ok val, true, s') | err e ↦ done (err e, false, s') ])
      by_result (ok v) s' ends = yields (refl, ends)
      by_result (err e) s' ends = yields (refl, ends)
