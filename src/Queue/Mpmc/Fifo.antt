-- ===== src/Queue/Mpmc/Fifo.antt =====
-- What every run of algors-queue/src/mpmc.rs comes to, for a ring of two slots or more, while the counters
-- stay below half of the values of a word.
use algors.Prelude.{
  ℕ, ◌+◌, ◌%◌, ◌^◌, ◌≤◌, ◌<◌, ◌≡◌, ◌≢◌, ◌⊎◌, inl, inr, refl, sym, ap, ◌∙◌, subst, List, [], ◌∷◌,
  some, Bool, Bool-cases, arith, dec_lt, ltb, length, length-append, done, panic, Yields,
  Yields-done, Yields-mono,
}
use algors.Queue.Mpmc.{
  Call, outside, push_load, pop_load, Event, silent, claimed, reserved, pushed, refused, popped,
  found_empty, System, new, new_mpmc, advance, mask,
}
use algors.Queue.Mpmc.Steps.{
  Step, call_push, call_pop, goes_on, Reach, start, later, accepted, delivered, received, times,
}
use algors.Queue.Mpmc.Invariant.{place, IsQueue, Knows-IsOwned, IsOwned-same}
use algors.Queue.Mpmc.Claims.{local-IsQueue}
use algors.Queue.Mpmc.Exact.{mask-exact}
use algors.Queue.Mpmc.Seen.{taking}
use algors.Queue.Mpmc.Pieces.{Explained}
use algors.Queue.Mpmc.Start.{new_mpmc-IsQueue, advance-Explained}
use algors.Queue.Mpmc.History.{Falling, AreAt}
use algors.Queue.Mpmc.Runs.{IsRun, Explained-IsRun}

module _ {ℓ} {A : Type ℓ} where
  accepted-le :
      (i : ℕ) (e : Event A) (es : List (ℕ × Event A))
      → length (accepted es) ≤ length (accepted ((i, e) ∷ es))
  unfolding accepted
  accepted-le i (claimed v) es = omega (arith, length-append (accepted es) (v ∷ []))
  accepted-le i silent es = omega arith
  accepted-le i reserved es = omega arith
  accepted-le i (pushed p v) es = omega arith
  accepted-le i (refused v) es = omega arith
  accepted-le i (popped p v) es = omega arith
  accepted-le i found_empty es = omega arith

  -- A call starts.
  starts-Explained :
      (pow : ℕ) (s : System A) (vals : List A) (i : ℕ) (c : Call A)
      → IsQueue (2 ^ pow) s.inner s.calls vals
      → s.calls i ≡ outside
      → (c ≡ pop_load) ⊎ ((v : A) × (c ≡ push_load v))
      → Explained (2 ^ pow) s.inner s.calls vals i (s.calls i) (silent, s.inner, c)
  starts-Explained pow s vals i c inv is how = elim how [
    | inl e ↦ (
      vals,
      local-IsQueue (2 ^ pow) s.inner s.calls vals inv i c (ap place is) (rw e tt) (rw e refl),
      (refl, refl, rw e (sym (ap taking is))),
    )
    | inr (v, e) ↦ (
      vals,
      local-IsQueue (2 ^ pow) s.inner s.calls vals inv i c (ap place is) (rw e tt) (rw e refl),
      (refl, refl, rw e (sym (ap taking is))),
    )
  ]

  Step-IsRun :
      (checks : Bool) (pow : ℕ) {i : ℕ} {e : Event A} {s s' : System A} (es : List (ℕ × Event A))
      → length (accepted es) + 2 ^ pow < 2 ^ 63
      → IsRun pow s es
      → Step checks s i e s'
      → IsRun pow s' ((i, e) ∷ es)
  Step-IsRun checks pow {s = s} es small run (call_push i v is) =
      Explained-IsRun pow s es run i s.inner (push_load v) silent
        (starts-Explained pow s (accepted es) i (push_load v) run.inv is (inr (v, refl)))
  Step-IsRun checks pow {s = s} es small run (call_pop i is) =
      Explained-IsRun pow s es run i s.inner pop_load silent
        (starts-Explained pow s (accepted es) i pop_load run.inv is (inl refl))
  Step-IsRun checks pow {s = s} es small run (goes_on i weak lag {e = e} {inner' = n} {c' = c} eq) =
      Explained-IsRun pow s es run i n c e (
        Yields-done (
          subst (Yields (Explained (2 ^ pow) s.inner s.calls (accepted es) i (s.calls i))) eq (
            advance-Explained checks weak lag pow s.inner s.calls (accepted es) run.inv
              (omega (arith, run.inv.count)) i)))

  start-IsRun : (pow : ℕ) (s : System A) → 1 ≤ pow → new_mpmc pow ≡ done s → IsRun pow s []
  unfolding new_mpmc new accepted delivered received times
  start-IsRun pow s pos e = elim (Bool-cases (ltb pow 64)) [
    | inl fits ↦ Yields-done (
        subst (Yields (λ (t : System A). IsRun pow t [])) e (
          Yields-mono
            (λ t inv. record {
              inv = inv;
              values = tt;
              once = λ p. (λ lt. absurd (omega (arith, inv.order, inv.count)), λ le. refl);
              ordered = λ i. (tt, tt, λ q f. tt);
            })
            (new_mpmc-IsQueue pow pos (ground arith))))
    | inr large ↦ let clash : panic ≡ done s = rw large at e in cc
  ]

  pub Reach-IsRun :
      (checks : Bool) (pow : ℕ) {es : List (ℕ × Event A)} {s : System A}
      → 1 ≤ pow
      → Reach checks pow es s
      → length (accepted es) + 2 ^ pow < 2 ^ 63
      → IsRun pow s es
  Reach-IsRun checks pow pos (start {s = s} e) small = start-IsRun pow s pos e
  Reach-IsRun checks pow pos (later {es = es} {i = i} {e = e} r step) small =
      let before : length (accepted es) + 2 ^ pow < 2 ^ 63 = omega (arith, accepted-le i e es) in
      Step-IsRun checks pow es before (Reach-IsRun checks pow pos r before) step

  -- In every run on a ring of two slots or more that accepts fewer than 2 ^ 63 - 2 ^ pow values, with any
  -- number of threads, any order of the pieces of their calls, spurious failures of the compare-exchange
  -- and late loads of the counters: at most 2 ^ pow of the accepted values are not claimed by consumers;
  -- every call of `try_pop` that returned a value returned the accepted value of its position; the value of
  -- each claimed position was either returned once, and no call is to return it now, or not at all, and a
  -- call is to return it; no other value was returned.
  pub exactly_once :
      (checks : Bool) (pow : ℕ) (es : List (ℕ × Event A)) (s : System A) (p : ℕ)
      → 1 ≤ pow
      → Reach checks pow es s
      → length (accepted es) + 2 ^ pow < 2 ^ 63
      → (s.inner.head ≤ length (accepted es))
        × (length (accepted es) ≤ s.inner.head + 2 ^ pow)
        × AreAt (accepted es) (delivered es)
        × (((p < s.inner.head)
              × (((times p (delivered es) ≡ 1) × ((j : ℕ) → taking (s.calls j) ≢ some p))
                  ⊎ ((times p (delivered es) ≡ 0) × ((j : ℕ) × (taking (s.calls j) ≡ some p)))))
            ⊎ ((s.inner.head ≤ p) × (times p (delivered es) ≡ 0)))
  exactly_once checks pow es s p pos r small =
      let run = Reach-IsRun checks pow pos r small in
      let (inside, beyond) = run.once p in
      (
        omega (arith, run.inv.order, run.inv.count),
        omega (arith, run.inv.fits, run.inv.count),
        run.values,
        elim (dec_lt p s.inner.head) [
          | yes lt ↦ inl (lt, inside lt)
          | no ge ↦ let above : s.inner.head ≤ p = omega arith in inr (above, beyond above)
        ],
      )

  -- In such a run, the calls of one thread returned values of rising positions: each thread gets the
  -- values in the order in which they were accepted.
  pub received-Falling :
      (checks : Bool) (pow : ℕ) (es : List (ℕ × Event A)) (s : System A) (i : ℕ)
      → 1 ≤ pow
      → Reach checks pow es s
      → length (accepted es) + 2 ^ pow < 2 ^ 63
      → Falling (received i es)
  received-Falling checks pow es s i pos r small =
      ((Reach-IsRun checks pow pos r small).ordered i).0

  -- In every state of such a run, the next piece of the call of any thread ends with a value: it neither
  -- reads a slot with no value, nor accesses one out of bounds, nor overflows. It does what its event
  -- says: a slot is claimed for a value only while fewer than 2 ^ pow values are unclaimed, the value is
  -- appended, and a value is claimed by a consumer only while there is one; a call that ends returns the
  -- value of its position; it finds the queue full only while 2 ^ pow values are unclaimed or a consumer
  -- still has the next slot, and empty only while all values are claimed or a producer has not
  -- published the next one.
  pub next_piece-Explained :
      (checks : Bool) (pow : ℕ) (es : List (ℕ × Event A)) (s : System A) (i : ℕ) (weak : Bool)
      (lag : ℕ)
      → 1 ≤ pow
      → Reach checks pow es s
      → length (accepted es) + 2 ^ pow < 2 ^ 63
      → Yields
          (Explained (2 ^ pow) s.inner s.calls (accepted es) i (s.calls i))
          (advance checks weak lag s.inner (s.calls i))
  next_piece-Explained checks pow es s i weak lag pos r small =
      let run = Reach-IsRun checks pow pos r small in
      advance-Explained checks weak lag pow s.inner s.calls (accepted es) run.inv
        (omega (arith, run.inv.count)) i

  -- In every state of such a run, the calls of two threads that are between their compare-exchange and their store of the
  -- sequence number, which is while they access the value of a slot, have different slots.
  pub slots_apart :
      (checks : Bool) (pow : ℕ) (es : List (ℕ × Event A)) (s : System A) (i j p q : ℕ)
      → 1 ≤ pow
      → Reach checks pow es s
      → length (accepted es) + 2 ^ pow < 2 ^ 63
      → i ≢ j
      → place (s.calls i) ≡ some p
      → place (s.calls j) ≡ some q
      → mask s.inner p ≢ mask s.inner q
  slots_apart checks pow es s i j p q pos r small ne at_p at_q same =
      let run = Reach-IsRun checks pow pos r small in
      let slot : p % 2 ^ pow ≡ q % 2 ^ pow =
        sym (mask-exact pow s.inner p run.inv.size)
        ∙ same
        ∙ mask-exact pow s.inner q run.inv.size in
      let eq : p ≡ q =
        IsOwned-same (2 ^ pow) s.inner p q run.inv.two
          (Knows-IsOwned (2 ^ pow) s.inner (accepted es) (s.calls i) p (run.inv.knows i) at_p)
          (Knows-IsOwned (2 ^ pow) s.inner (accepted es) (s.calls j) q (run.inv.knows j) at_q)
          slot in
      ne (run.inv.unique i j p at_p (at_q ∙ ap some (sym eq)))
