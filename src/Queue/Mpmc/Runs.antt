-- ===== src/Queue/Mpmc/Runs.antt =====
-- Every run of algors-queue/src/mpmc.rs in which the counters stay below half of the values of a word.
use algors.Prelude.{
  ℕ, suc, ◌+◌, ◌^◌, ◌<◌, ◌≡◌, ◌≢◌, inl, inr, refl, sym, ap, ◌∙◌, subst, List, [], ◌∷◌, ◌++◌, none,
  some, true, false, arith, ◌==◌, if◌then◌else◌, get_elem?, ℕ_discrete,
}
use algors.Queue.Mpmc.{
  Inner, Call, Event, silent, claimed, reserved, pushed, refused, popped, found_empty, System,
  assign,
}
use algors.Queue.Mpmc.Steps.{accepted, delivered, received, times}
use algors.Queue.Mpmc.Invariant.{IsQueue}
use algors.Queue.Mpmc.Slots.{assign_self, assign_other}
use algors.Queue.Mpmc.Seen.{taking}
use algors.Queue.Mpmc.Pieces.{IsSame, Explained}
use algors.Queue.Mpmc.History.{
  Below, Below-mono, Once, Once-reserve, Once-return, InOrder, AreAt, AreAt-append, taking-place,
  taking-lt,
}

module _ {ℓ} {A : Type ℓ} where
  -- The state after a run with the events `es`.
  pub record IsRun (pow : ℕ) (s : System A) (es : List (ℕ × Event A)) : Type ℓ where
    pub inv : IsQueue (2 ^ pow) s.inner s.calls (accepted es)
    pub values : AreAt (accepted es) (delivered es)
    pub once : (p : ℕ) → Once s.inner.head (λ j. taking (s.calls j)) p (times p (delivered es))
    pub ordered : (i : ℕ) → InOrder s.inner.head (taking (s.calls i)) (received i es)

  taking_self : (calls : ℕ → Call A) (i : ℕ) (c : Call A) → taking (assign calls i c i) ≡ taking c
  taking_self calls i c = ap taking (assign_self calls i c)

  taking_other :
      (calls : ℕ → Call A) (i j : ℕ) (c : Call A)
      → i ≢ j
      → taking (assign calls i c j) ≡ taking (calls j)
  taking_other calls i j c ne = ap taking (assign_other calls i j c ne)

  module _ (h h' i : ℕ) (calls : ℕ → Call A) (c' : Call A) (same_h : h' ≡ h)
      (same : taking c' ≡ taking (calls i)) where
    taking_same : (j : ℕ) → taking (calls j) ≡ taking (assign calls i c' j)
    taking_same j = elim (ℕ_discrete i j) [
      | yes is ↦
          subst (λ k. taking (calls k) ≡ taking (assign calls i c' k)) is
            (sym (taking_self calls i c' ∙ same))
      | no ne ↦ sym (taking_other calls i j c' ne)
    ]

    Once-same :
        (p n : ℕ)
        → Once h (λ j. taking (calls j)) p n
        → Once h' (λ j. taking (assign calls i c' j)) p n
    Once-same p n (inside, beyond) = (
      λ lt. elim (inside (omega arith)) [
        | inl (one, free) ↦ inl (one, λ j e. free j (taking_same j ∙ e))
        | inr (zero_n, (j, e)) ↦ inr (zero_n, (j, sym (taking_same j) ∙ e))
      ],
      λ le. beyond (omega arith),
    )

    InOrder-same :
        (j : ℕ) (ps : List ℕ)
        → InOrder h (taking (calls j)) ps
        → InOrder h' (taking (assign calls i c' j)) ps
    InOrder-same j ps (falls, low, next) =
        (falls, Below-mono h h' ps (omega arith) low, λ q e. next q (taking_same j ∙ e))

  module _ (pow : ℕ) (s : System A) (es : List (ℕ × Event A)) (run : IsRun pow s es) (i : ℕ)
      (inner' : Inner A) (c' : Call A) where
    abbrev after : System A
    after = record { inner = inner'; calls = assign s.calls i c' }

    -- A piece by which no value is accepted, and none is claimed or returned by a consumer.
    same-IsRun :
        (e : Event A)
        → accepted ((i, e) ∷ es) ≡ accepted es
        → delivered ((i, e) ∷ es) ≡ delivered es
        → ((j : ℕ) → received j ((i, e) ∷ es) ≡ received j es)
        → (vals' : List A) → IsQueue (2 ^ pow) inner' (assign s.calls i c') vals'
        → IsSame s.inner (accepted es) (s.calls i) inner' c' vals'
        → IsRun pow after ((i, e) ∷ es)
    same-IsRun e acc del rec vals' inv (vals_same, head_same, takes) = record {
      inv = subst (IsQueue (2 ^ pow) inner' (assign s.calls i c')) (vals_same ∙ sym acc) inv;
      values = rw (acc, del) run.values;
      once = λ p. rw del (
          Once-same s.inner.head inner'.head i s.calls c' head_same takes p (times p (delivered es))
            (run.once p));
      ordered = λ j. rw (rec j) (
          InOrder-same s.inner.head inner'.head i s.calls c' head_same takes j (received j es)
            (run.ordered j));
    }

    claimed-IsRun :
        (v : A) (vals' : List A)
        → IsQueue (2 ^ pow) inner' (assign s.calls i c') vals'
        → vals' ≡ accepted es ++ v ∷ []
        → inner'.head ≡ s.inner.head
        → taking c' ≡ taking (s.calls i)
        → IsRun pow after ((i, claimed v) ∷ es)
    unfolding accepted delivered received
    claimed-IsRun v vals' inv longer head_same takes = record {
      inv = subst (IsQueue (2 ^ pow) inner' (assign s.calls i c')) longer inv;
      values = AreAt-append (accepted es) (v ∷ []) (delivered es) run.values;
      once = λ p.
          Once-same s.inner.head inner'.head i s.calls c' head_same takes p (times p (delivered es))
            (run.once p);
      ordered = λ j.
          InOrder-same s.inner.head inner'.head i s.calls c' head_same takes j (received j es)
            (run.ordered j);
    }

    reserved-IsRun :
        (vals' : List A)
        → IsQueue (2 ^ pow) inner' (assign s.calls i c') vals'
        → vals' ≡ accepted es
        → inner'.head ≡ suc s.inner.head
        → taking (s.calls i) ≡ none
        → taking c' ≡ some s.inner.head
        → IsRun pow after ((i, reserved) ∷ es)
    unfolding accepted delivered received
    reserved-IsRun vals' inv same head_next before takes = record {
      inv = subst (IsQueue (2 ^ pow) inner' (assign s.calls i c')) same inv;
      values = run.values;
      once = λ p.
          subst (λ h. Once h (λ j. taking (assign s.calls i c' j)) p (times p (delivered es)))
            (sym head_next)
            (Once-reserve s.inner.head p (times p (delivered es)) i (λ j. taking (s.calls j))
              (λ j. taking (assign s.calls i c' j)) (λ j ne. taking_other s.calls i j c' ne) before
              (taking_self s.calls i c' ∙ takes) (run.once p));
      ordered = λ j.
          let (falls, low, next) = run.ordered j in
          (
            falls,
            Below-mono s.inner.head inner'.head (received j es) (omega arith) low,
            λ q e. elim (ℕ_discrete i j) [
              | yes is ↦
                  let here : taking (assign s.calls i c' j) ≡ some s.inner.head =
                    subst (λ k. taking (assign s.calls i c' k) ≡ some s.inner.head) is
                      (taking_self s.calls i c' ∙ takes) in
                  let both : some s.inner.head ≡ some q = sym here ∙ e in
                  let eq : s.inner.head ≡ q = cc in subst (λ k. Below k (received j es)) eq low
              | no ne ↦ next q (sym (taking_other s.calls i j c' ne) ∙ e)
            ],
          );
    }

    -- No other call is to return the same value.
    alone : (q j : ℕ) → taking (s.calls i) ≡ some q → taking (s.calls j) ≡ some q → i ≡ j
    alone q j mine his =
        run.inv.unique i j q (taking-place (s.calls i) q mine) (taking-place (s.calls j) q his)

    popped-IsRun :
        (q : ℕ) (v : A) (vals' : List A)
        → IsQueue (2 ^ pow) inner' (assign s.calls i c') vals'
        → get_elem? (accepted es) q ≡ some v
        → vals' ≡ accepted es
        → inner'.head ≡ s.inner.head
        → taking (s.calls i) ≡ some q
        → taking c' ≡ none
        → IsRun pow after ((i, popped q v) ∷ es)
    unfolding accepted delivered received times
    popped-IsRun q v vals' inv val same head_same mine gone =
        let q_lt : q < s.inner.head =
          taking-lt (2 ^ pow) s.inner (accepted es) (s.calls i) q (run.inv.knows i) mine in
        record {
          inv = subst (IsQueue (2 ^ pow) inner' (assign s.calls i c')) same inv;
          values = (val, run.values);
          once = λ p.
              subst
                (λ h.
                  Once h (λ j. taking (assign s.calls i c' j)) p
                    ((if q == p then 1 else 0) + times p (delivered es)))
                (sym head_same)
                (Once-return s.inner.head p (times p (delivered es)) i (λ j. taking (s.calls j))
                  (λ j. taking (assign s.calls i c' j)) (λ j ne. taking_other s.calls i j c' ne) q
                  q_lt mine (taking_self s.calls i c' ∙ gone) (λ j e. alone q j mine e)
                  (run.once p));
          ordered = λ j.
              let (falls, low, next) = run.ordered j in
              elim (ℕ_discrete i j) [
                | yes is ↦
                    let test : (i == j) ≡ true = ground arith in
                    rw test (
                      (next q (sym (ap (λ k. taking (s.calls k)) is) ∙ mine), falls),
                      (
                        omega arith,
                        Below-mono s.inner.head inner'.head (received j es) (omega arith) low,
                      ),
                      λ p e. let clash : none ≡ some p = sym gone ∙ e in cc,
                    )
                | no ne ↦
                    let test : (i == j) ≡ false = ground arith in
                    rw test (
                      falls,
                      Below-mono s.inner.head inner'.head (received j es) (omega arith) low,
                      next,
                    )
              ];
        }

    -- A piece of a call leaves the state after a run that is longer by its event.
    pub Explained-IsRun :
        (e : Event A)
        → Explained (2 ^ pow) s.inner s.calls (accepted es) i (s.calls i) (e, inner', c')
        → IsRun pow after ((i, e) ∷ es)
    unfolding accepted delivered received
    Explained-IsRun silent (vals', inv, same) =
        same-IsRun silent refl refl (λ j. refl) vals' inv same
    Explained-IsRun (claimed v) (vals', inv, (room, longer, head_same, takes)) =
        claimed-IsRun v vals' inv longer head_same takes
    Explained-IsRun reserved (vals', inv, (there, same, next, before, takes)) =
        reserved-IsRun vals' inv same next before takes
    Explained-IsRun (pushed p v) (vals', inv, (val, same)) =
        same-IsRun (pushed p v) refl refl (λ j. refl) vals' inv same
    Explained-IsRun (refused v) (vals', inv, (full, same)) =
        same-IsRun (refused v) refl refl (λ j. refl) vals' inv same
    Explained-IsRun (popped p v) (vals', inv, (val, same, head_same, mine, gone)) =
        popped-IsRun p v vals' inv val same head_same mine gone
    Explained-IsRun found_empty (vals', inv, (empty, same)) =
        same-IsRun found_empty refl refl (λ j. refl) vals' inv same
