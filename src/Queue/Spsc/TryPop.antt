-- ===== src/Queue/Spsc/TryPop.antt =====
-- A whole call of `try_pop` of algors-queue/src/spsc.rs: it ends after four pieces at most, and takes the
-- first value of the queue or finds it empty.
use algors.Prelude.{
  ℕ, zero, suc, ◌^◌, ◌≤◌, ◌<◌, ◌≡◌, ◌⊎◌, refl, subst, inl, inr, List, [], ◌∷◌, Bool, true, false,
  Bool-cases, arith, YieldsOr, YieldsOr-bind, YieldsOr-with, ran, Whenever, Whenever-bind,
  Whenever-if, ended,
}
use algors.Queue.Spsc.{
  Inner, System, Pushing, Popping, pop_idle, pop_reload, pop_read, pop_release, Event, silent,
  popped, found_empty, is_drained, mask, take_slot, increment, begin_pop, advance_pop, finish_pop,
  pop_over, try_pop,
}
use algors.Queue.Spsc.Invariant.{IsQueue, Spec}
use algors.Queue.Spsc.TryPush.{quiet-same}
use algors.Queue.Spsc.Push.{Explained}
use algors.Queue.Spsc.Pop.{begin_pop-IsQueue, advance_pop-Explained}

module _ {ℓ} {A : Type ℓ} where
  -- How many pieces of the call are left at most.
  abbrev pub pop_rank : Popping A → ℕ
  pop_rank pop_idle = 0
  pop_rank (pop_reload n) = 3
  pop_rank (pop_read n) = 2
  pop_rank (pop_release n v) = 1

  -- Where a piece of the call with `before` pieces left leads to.
  abbrev PopAfter : ℕ → Event A → Popping A → Type ℓ
  PopAfter before e pop_idle = (e ≡ found_empty) ⊎ ((val : A) × (e ≡ popped val))
  PopAfter before e (pop_reload c) = (e ≡ silent) × (3 < before)
  PopAfter before e (pop_read c) = (e ≡ silent) × (2 < before)
  PopAfter before e (pop_release c v) = (e ≡ silent) × (1 < before)

  module _ (checks : Bool) (inner : Inner A) (hc tc : ℕ) where
    pop-after :
        (p : Pushing A) (c : Popping A)
        → 0 < pop_rank c
        → Whenever
            (λ (e, s'). PopAfter (pop_rank c) e s'.popping × (s'.pushing ≡ p))
            (advance_pop checks (record {
              inner = inner;
              head_cache = hc;
              tail_cache = tc;
              pushing = p;
              popping = c;
            }))
    unfolding advance_pop
    pop-after p pop_idle b = absurd (omega arith)
    pop-after p (pop_reload n) b =
        Whenever-if (is_drained n inner.tail) _ _ (inl refl, refl) ((refl, omega arith), refl)
    pop-after p (pop_read n) b =
        Whenever-bind (take_slot inner (mask inner n)) _
          λ (v, inner'). ended ((refl, omega arith), refl)
    pop-after p (pop_release n v) b =
        Whenever-bind (increment checks n) _ λ h'. ended (inr (v, refl), refl)

  -- What a call of `try_pop` did to the queue `q`.
  abbrev pub Pops : ℕ → List A → Pushing A → Event A × System A → Type ℓ
  Pops pow q p (e, s') =
      (s'.popping ≡ pop_idle)
      × (s'.pushing ≡ p)
      × (((e ≡ found_empty) × (q ≡ []) × IsQueue pow s' [])
          ⊎ ((val : A) × (q' : List A) × (e ≡ popped val) × (q ≡ val ∷ q') × IsQueue pow s' q'))

  pop-ended :
      (n : ℕ) (e : Event A) (c : Popping A)
      → pop_over c ≡ true
      → PopAfter n e c
      → (c ≡ pop_idle) × ((e ≡ found_empty) ⊎ ((val : A) × (e ≡ popped val)))
  pop-ended n e pop_idle over after = (refl, after)
  pop-ended n e (pop_reload c) over after = cc
  pop-ended n e (pop_read c) over after = cc
  pop-ended n e (pop_release c v) over after = cc

  pop-goes_on :
      (n : ℕ) (e : Event A) (c : Popping A)
      → pop_over c ≡ false
      → PopAfter n e c
      → (e ≡ silent) × (0 < pop_rank c) × (pop_rank c < n)
  pop-goes_on n e pop_idle more after = cc
  pop-goes_on n e (pop_reload c) more (quiet, lt) = (quiet, omega arith, lt)
  pop-goes_on n e (pop_read c) more (quiet, lt) = (quiet, omega arith, lt)
  pop-goes_on n e (pop_release c v) more (quiet, lt) = (quiet, omega arith, lt)

  pop-result :
      (pow : ℕ) (q : List A) (e : Event A) (s' : System A)
      → (e ≡ found_empty) ⊎ ((val : A) × (e ≡ popped val))
      → Explained pow q (e, s')
      → ((e ≡ found_empty) × (q ≡ []) × IsQueue pow s' [])
        ⊎ ((val : A) × (q' : List A) × (e ≡ popped val) × (q ≡ val ∷ q') × IsQueue pow s' q')
  pop-result pow q e s' (inl is) (q', inv, spec) =
      let (before, after) : Spec (2 ^ pow) q found_empty q' =
        subst (λ d. Spec (2 ^ pow) q d q') is spec in
      inl (is, before, subst (IsQueue pow s') after inv)
  pop-result pow q e s' (inr (val, is)) (q', inv, spec) =
      inr (val, q', is, subst (λ d. Spec (2 ^ pow) q d q') is spec, inv)

  finish_pop-Pops :
      (fuel : ℕ) (checks : Bool) (pow : ℕ) (s : System A) (q : List A)
      → IsQueue pow s q
      → 0 < pop_rank s.popping
      → pop_rank s.popping ≤ fuel
      → YieldsOr checks (Pops pow q s.pushing) (finish_pop fuel checks s)
  unfolding finish_pop
  finish_pop-Pops zero checks pow s q inv busy le = absurd (omega arith)
  finish_pop-Pops (suc fuel) checks pow s q inv busy le =
      YieldsOr-bind
        (YieldsOr-with (pop-after checks s.inner s.head_cache s.tail_cache s.pushing s.popping busy)
          (advance_pop-Explained checks pow s q inv))
        λ (e, s') (explained, (after, same)). elim (Bool-cases (pop_over s'.popping)) [
          | inl over ↦
              let (idle, is) = pop-ended (pop_rank s.popping) e s'.popping over after in
              rw over (ran (idle, same, pop-result pow q e s' is explained))
          | inr more ↦
              let (quiet, busy', lt) = pop-goes_on (pop_rank s.popping) e s'.popping more after in
              rw more (
                subst (λ p. YieldsOr checks (Pops pow q p) (finish_pop fuel checks s')) same
                  (finish_pop-Pops fuel checks pow s' q (quiet-same pow q e s' quiet explained)
                    busy' (omega arith)))
        ]

  pub begin_pop-busy :
      (s : System A)
      → ((begin_pop s).pushing ≡ s.pushing)
        × (0 < pop_rank (begin_pop s).popping)
        × (pop_rank (begin_pop s).popping ≤ 3)
  unfolding begin_pop
  begin_pop-busy s = elim (Bool-cases (is_drained s.inner.head s.tail_cache)) [
    | inl empty ↦ rw empty (refl, omega arith, omega arith)
    | inr some_left ↦ rw some_left (refl, omega arith, omega arith)
  ]

  -- A call of `try_pop` that no piece of a `try_push` comes between ends, in a build with overflow checks
  -- perhaps in a panic, on a queue `q` and with the producer at any place of its own call. If `q` is empty,
  -- it says so and the queue is the same; else it returns the first value of `q`, and the queue after it
  -- holds the others.
  pub try_pop-Pops :
      (checks : Bool) (pow : ℕ) (s : System A) (q : List A)
      → IsQueue pow s q
      → s.popping ≡ pop_idle
      → YieldsOr checks (Pops pow q s.pushing) (try_pop checks s)
  unfolding try_pop
  try_pop-Pops checks pow s q inv idle =
      let (same, busy, le) = begin_pop-busy s in
      subst (λ p. YieldsOr checks (Pops pow q p) (finish_pop 3 checks (begin_pop s))) same
        (finish_pop-Pops 3 checks pow (begin_pop s) q (begin_pop-IsQueue pow s q inv idle) busy le)
