-- ===== src/Queue/Spsc/TryPush.antt =====
-- A whole call of `try_push` of algors-queue/src/spsc.rs: it ends after four pieces at most, and adds the
-- value to a queue of at most 2 ^ pow values or finds it full.
use algors.Prelude.{
  ℕ, zero, suc, ◌^◌, ◌≤◌, ◌<◌, ◌≡◌, ◌≢◌, ◌⊎◌, refl, ap, subst, inl, inr, List, [], ◌∷◌, ◌++◌,
  Option, none, some, Bool, true, false, Bool-cases, arith, length, YieldsOr, YieldsOr-bind,
  YieldsOr-with, ran, Whenever, Whenever-bind, Whenever-if, ended,
}
use algors.Queue.Spsc.{
  Inner, System, Pushing, push_idle, push_reload, push_write, push_publish, Popping, Event, silent,
  pushed, refused, is_full, mask, write_slot, increment, begin_push, advance_push, finish_push,
  push_over, try_push,
}
use algors.Queue.Spsc.Invariant.{IsQueue, Spec}
use algors.Queue.Spsc.Push.{Explained, begin_push-IsQueue, advance_push-Explained}

module _ {ℓ} {A : Type ℓ} where
  -- How many pieces of the call are left at most.
  abbrev pub push_rank : Pushing A → ℕ
  push_rank push_idle = 0
  push_rank (push_reload v n) = 3
  push_rank (push_write v n) = 2
  push_rank (push_publish v n) = 1

  -- Where a piece of the call for `val` with `before` pieces left leads to.
  abbrev PushAfter : A → ℕ → Event A → Pushing A → Type ℓ
  PushAfter val before e push_idle = (e ≡ pushed val) ⊎ (e ≡ refused val)
  PushAfter val before e (push_reload v c) = (e ≡ silent) × (v ≡ val) × (3 < before)
  PushAfter val before e (push_write v c) = (e ≡ silent) × (v ≡ val) × (2 < before)
  PushAfter val before e (push_publish v c) = (e ≡ silent) × (v ≡ val) × (1 < before)

  -- The value of the call that is under way.
  abbrev push_value : Pushing A → Option A
  push_value push_idle = none
  push_value (push_reload v c) = some v
  push_value (push_write v c) = some v
  push_value (push_publish v c) = some v

  push-rank_pos : (p : Pushing A) (val : A) → push_value p ≡ some val → push_rank p ≢ 0
  push-rank_pos push_idle val b e = cc
  push-rank_pos (push_reload v c) val b e = omega arith
  push-rank_pos (push_write v c) val b e = omega arith
  push-rank_pos (push_publish v c) val b e = omega arith

  module _ (checks : Bool) (inner : Inner A) (hc tc : ℕ) where
    push-after :
        (val : A) (p : Pushing A) (c : Popping A)
        → push_value p ≡ some val
        → Whenever
            (λ (e, s'). PushAfter val (push_rank p) e s'.pushing × (s'.popping ≡ c))
            (advance_push checks (record {
              inner = inner;
              head_cache = hc;
              tail_cache = tc;
              pushing = p;
              popping = c;
            }))
    unfolding advance_push
    push-after val push_idle c b = cc
    push-after val (push_reload v n) c b =
        Whenever-if (is_full inner n inner.head) _ _ (inr (ap refused (cc)), refl)
          ((refl, cc, omega arith), refl)
    push-after val (push_write v n) c b =
        Whenever-bind (write_slot inner (mask inner n) v) _
          λ inner'. ended ((refl, cc, omega arith), refl)
    push-after val (push_publish v n) c b =
        Whenever-bind (increment checks n) _ λ t'. ended (inl (ap pushed (cc)), refl)

  -- What a call of `try_push` did to the queue `q`.
  abbrev pub Pushes : ℕ → List A → A → Popping A → Event A × System A → Type ℓ
  Pushes pow q val c (e, s') =
      (s'.pushing ≡ push_idle)
      × (s'.popping ≡ c)
      × (((e ≡ pushed val) × (length q < 2 ^ pow) × IsQueue pow s' (q ++ val ∷ []))
          ⊎ ((e ≡ refused val) × (length q ≡ 2 ^ pow) × IsQueue pow s' q))

  push-ended :
      (val : A) (n : ℕ) (e : Event A) (p : Pushing A)
      → push_over p ≡ true
      → PushAfter val n e p
      → (p ≡ push_idle) × ((e ≡ pushed val) ⊎ (e ≡ refused val))
  push-ended val n e push_idle over after = (refl, after)
  push-ended val n e (push_reload v c) over after = cc
  push-ended val n e (push_write v c) over after = cc
  push-ended val n e (push_publish v c) over after = cc

  push-goes_on :
      (val : A) (n : ℕ) (e : Event A) (p : Pushing A)
      → push_over p ≡ false
      → PushAfter val n e p
      → (e ≡ silent) × (push_value p ≡ some val) × (push_rank p < n)
  push-goes_on val n e push_idle more after = cc
  push-goes_on val n e (push_reload v c) more (quiet, same, lt) = (quiet, ap some same, lt)
  push-goes_on val n e (push_write v c) more (quiet, same, lt) = (quiet, ap some same, lt)
  push-goes_on val n e (push_publish v c) more (quiet, same, lt) = (quiet, ap some same, lt)

  push-result :
      (pow : ℕ) (q : List A) (val : A) (e : Event A) (s' : System A)
      → (e ≡ pushed val) ⊎ (e ≡ refused val)
      → Explained pow q (e, s')
      → ((e ≡ pushed val) × (length q < 2 ^ pow) × IsQueue pow s' (q ++ val ∷ []))
        ⊎ ((e ≡ refused val) × (length q ≡ 2 ^ pow) × IsQueue pow s' q)
  push-result pow q val e s' (inl is) (q', inv, spec) =
      let (room, same) : Spec (2 ^ pow) q (pushed val) q' =
        subst (λ d. Spec (2 ^ pow) q d q') is spec in
      inl (is, room, subst (IsQueue pow s') same inv)
  push-result pow q val e s' (inr is) (q', inv, spec) =
      let (full, same) : Spec (2 ^ pow) q (refused val) q' =
        subst (λ d. Spec (2 ^ pow) q d q') is spec in
      inr (is, full, subst (IsQueue pow s') same inv)

  pub quiet-same :
      (pow : ℕ) (q : List A) (e : Event A) (s' : System A)
      → e ≡ silent
      → Explained pow q (e, s')
      → IsQueue pow s' q
  quiet-same pow q e s' is (q', inv, spec) =
      let same : Spec (2 ^ pow) q silent q' = subst (λ d. Spec (2 ^ pow) q d q') is spec in
      subst (IsQueue pow s') same inv

  finish_push-Pushes :
      (fuel : ℕ) (checks : Bool) (pow : ℕ) (s : System A) (q : List A) (val : A)
      → IsQueue pow s q
      → push_value s.pushing ≡ some val
      → push_rank s.pushing ≤ fuel
      → YieldsOr checks (Pushes pow q val s.popping) (finish_push fuel checks s)
  unfolding finish_push
  finish_push-Pushes zero checks pow s q val inv b le =
      absurd (push-rank_pos s.pushing val b (omega arith))
  finish_push-Pushes (suc fuel) checks pow s q val inv b le =
      YieldsOr-bind
        (YieldsOr-with
          (push-after checks s.inner s.head_cache s.tail_cache val s.pushing s.popping b)
          (advance_push-Explained checks pow s q inv))
        λ (e, s') (explained, (after, same)). elim (Bool-cases (push_over s'.pushing)) [
          | inl over ↦
              let (idle, is) = push-ended val (push_rank s.pushing) e s'.pushing over after in
              rw over (ran (idle, same, push-result pow q val e s' is explained))
          | inr more ↦
              let (quiet, b', lt) =
                push-goes_on val (push_rank s.pushing) e s'.pushing more after in
              rw more (
                subst (λ c. YieldsOr checks (Pushes pow q val c) (finish_push fuel checks s')) same
                  (finish_push-Pushes fuel checks pow s' q val
                    (quiet-same pow q e s' quiet explained) b' (omega arith)))
        ]

  begin_push-busy :
      (s : System A) (val : A)
      → (push_value (begin_push s val).pushing ≡ some val)
        × ((begin_push s val).popping ≡ s.popping)
        × (push_rank (begin_push s val).pushing ≤ 3)
  unfolding begin_push
  begin_push-busy s val = elim (Bool-cases (is_full s.inner s.inner.tail s.head_cache)) [
    | inl full ↦ rw full (refl, refl, omega arith)
    | inr free ↦ rw free (refl, refl, omega arith)
  ]

  -- A call of `try_push` that no piece of a `try_pop` comes between ends, in a build with overflow checks
  -- perhaps in a panic, on a queue `q` and with the consumer at any place of its own call. If `q` holds
  -- fewer than 2 ^ pow values, it is accepted and `q ++ val ∷ []` is the queue after it; else it is
  -- refused, with the value, and the queue is the same.
  pub try_push-Pushes :
      (checks : Bool) (pow : ℕ) (s : System A) (q : List A) (val : A)
      → IsQueue pow s q
      → s.pushing ≡ push_idle
      → YieldsOr checks (Pushes pow q val s.popping) (try_push checks s val)
  unfolding try_push
  try_push-Pushes checks pow s q val inv idle =
      let (b, same, le) = begin_push-busy s val in
      subst (λ c. YieldsOr checks (Pushes pow q val c) (finish_push 3 checks (begin_push s val)))
        same
        (finish_push-Pushes 3 checks pow (begin_push s val) q val
          (begin_push-IsQueue pow s q val inv idle) b le)
