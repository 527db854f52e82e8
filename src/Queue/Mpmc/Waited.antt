-- ===== src/Queue/Mpmc/Waited.antt =====
-- What `push` and `pop` of algors-queue/src/mpmc.rs come to, with any waiter and with other threads that go on
-- meanwhile.
pub mod Push
pub mod Pop
use mathlib.Core.List.{append_assoc, append-nil}
use algors.Prelude.{
  ℕ, suc, ◌+◌, ◌^◌, ◌<◌, ◌≤◌, ◌≡◌, ◌≢◌, refl, sym, ap, ◌∙◌, subst, inl, inr, ◌⊎◌, List, [], ◌∷◌,
  ◌++◌, Option, none, some, Bool, true, false, arith, length, get_elem?, Outcome, done, panic,
  ◌>>=◌, Yields, Yields-bind, Yields-done, yields,
}
use algors.Queue.Mpmc.{
  Inner, Call, outside, push_load, pop_load, Event, silent, claimed, reserved, pushed, refused,
  popped, found_empty, System, assign, try_push, try_pop,
}
use algors.Queue.Mpmc.Steps.{Step, call_push, call_pop, goes_on}
use algors.Queue.Mpmc.Invariant.{place, IsQueue}
use algors.Queue.Mpmc.Slots.{assign_other}
use algors.Queue.Mpmc.Claims.{local-IsQueue}
use algors.Queue.Mpmc.Pieces.{Spec, Explained}
use algors.Queue.Mpmc.Start.{advance-Explained}
use algors.Queue.Mpmc.Alone.Push.{PushesAlone, try_push-PushesAlone}
use algors.Queue.Mpmc.Alone.Pop.{PopsAlone, try_pop-PopsAlone}
use algors.Queue.Mpmc.Wait.{
  attempt, attempt_pop, push, pop, Others, stays, goes, Answered, returned, gave_up, failed, passed,
}
use algors.Queue.Spsc.Wait.{Result, ok, err}

module _ {ℓ} {A : Type ℓ} where
  -- More values were accepted.
  abbrev pub Extends : List A → List A → Type ℓ
  Extends vals vals' = (more : List A) × (vals' ≡ vals ++ more)

  pub Extends-trans : (xs ys zs : List A) → Extends xs ys → Extends ys zs → Extends xs zs
  Extends-trans xs ys zs (more, e) (further, f) =
      (more ++ further, f ∙ ap (λ k. k ++ further) e ∙ append_assoc xs more further)

  pub Extends-same : (xs ys : List A) → ys ≡ xs → Extends xs ys
  Extends-same xs ys e = ([], e ∙ sym (append-nil xs))

  Spec-Extends :
      (room : ℕ) (inner : Inner A) (calls : ℕ → Call A) (vals : List A) (c : Call A) (e : Event A)
      (inner' : Inner A) (c' : Call A) (vals' : List A)
      → Spec room inner calls vals c e inner' c' vals'
      → Extends vals vals'
  Spec-Extends room inner calls vals c silent inner' c' vals' (same, h, k) =
      Extends-same vals vals' same
  Spec-Extends room inner calls vals c (claimed v) inner' c' vals' (lt, longer, h, k) =
      (v ∷ [], longer)
  Spec-Extends room inner calls vals c reserved inner' c' vals' (lt, same, h, k, l) =
      Extends-same vals vals' same
  Spec-Extends room inner calls vals c (pushed p v) inner' c' vals' (val, (same, h, k)) =
      Extends-same vals vals' same
  Spec-Extends room inner calls vals c (refused v) inner' c' vals' (full, (same, h, k)) =
      Extends-same vals vals' same
  Spec-Extends room inner calls vals c (popped p v) inner' c' vals' (val, same, h, k, l) =
      Extends-same vals vals' same
  Spec-Extends room inner calls vals c found_empty inner' c' vals' (empty, (same, h, k)) =
      Extends-same vals vals' same

  -- The ring has accepted `vals`, and thread `i` is in no call.
  abbrev pub IsAt : ℕ → ℕ → System A → List A → Type ℓ
  IsAt pow i s vals = IsQueue (2 ^ pow) s.inner s.calls vals × (s.calls i ≡ outside)

  -- A step of another thread.
  Step-IsAt :
      (checks : Bool) (pow i : ℕ) {j : ℕ} {e : Event A} {s s' : System A} (vals : List A)
      → i ≢ j
      → s.inner.tail + 2 ^ pow < 2 ^ 63
      → IsAt pow i s vals
      → Step checks s j e s'
      → (vals' : List A) × Extends vals vals' × IsAt pow i s' vals'
  Step-IsAt checks pow i {s = s} vals ne small (inv, out) (call_push j v is) = (
    vals,
    Extends-same vals vals refl,
    (
      local-IsQueue (2 ^ pow) s.inner s.calls vals inv j (push_load v) (ap place is) tt refl,
      assign_other s.calls j i (push_load v) (λ e. ne (sym e)) ∙ out,
    ),
  )
  Step-IsAt checks pow i {s = s} vals ne small (inv, out) (call_pop j is) = (
    vals,
    Extends-same vals vals refl,
    (
      local-IsQueue (2 ^ pow) s.inner s.calls vals inv j pop_load (ap place is) tt refl,
      assign_other s.calls j i pop_load (λ e. ne (sym e)) ∙ out,
    ),
  )
  Step-IsAt checks pow i {s = s} vals ne small (inv, out)
        (goes_on j weak lag {e = e} {inner' = n} {c' = c} eq) =
      let (vals', inv', spec) : Explained (2 ^ pow) s.inner s.calls vals j (s.calls j) (e, n, c) =
        Yields-done (
          subst (Yields (Explained (2 ^ pow) s.inner s.calls vals j (s.calls j))) eq
            (advance-Explained checks weak lag pow s.inner s.calls vals inv small j)) in
      (
        vals',
        Spec-Extends (2 ^ pow) s.inner s.calls vals (s.calls j) e n c vals' spec,
        (inv', assign_other s.calls j i c (λ e. ne (sym e)) ∙ out),
      )

  pub Others-trans :
      (checks : Bool) (pow i : ℕ) {s m l : System A}
      → Others checks pow i s m
      → Others checks pow i m l
      → Others checks pow i s l
  Others-trans checks pow i o stays = o
  Others-trans checks pow i o (goes j p ne step small) =
      goes j (Others-trans checks pow i o p) ne step small

  pub Others-IsAt :
      (checks : Bool) (pow i : ℕ) {s s' : System A} (vals : List A)
      → s.inner.tail + 2 ^ pow < 2 ^ 63
      → IsAt pow i s vals
      → Others checks pow i s s'
      → (vals' : List A) × Extends vals vals'
        × IsAt pow i s' vals'
        × (s'.inner.tail + 2 ^ pow < 2 ^ 63)
  Others-IsAt checks pow i vals small at stays = (vals, Extends-same vals vals refl, at, small)
  Others-IsAt checks pow i vals small at (goes j o ne step small') =
      let (vals₁, ext, at₁, small₁) = Others-IsAt checks pow i vals small at o in
      let (vals₂, ext', at₂) = Step-IsAt checks pow i vals₁ ne small₁ at₁ step in
      (vals₂, Extends-trans vals vals₁ vals₂ ext ext', at₂, small')
