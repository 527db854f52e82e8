-- ===== src/Queue/Mpmc/Pieces.antt =====
-- algors-queue/src/mpmc.rs: what a piece of a call does to the queue.
pub mod Push
pub mod Pop
use algors.Prelude.{
  ℕ, suc, ◌+◌, ◌-◌, ◌<◌, ◌≤◌, ◌≡◌, refl, ap, ◌∙◌, List, [], ◌∷◌, ◌++◌, Option, none, some, arith,
  length, get_elem?, Yields,
}
use algors.Queue.Mpmc.{
  Inner, Call, push_look, pop_look, Event, silent, claimed, reserved, pushed, refused, popped,
  found_empty, assign,
}
use algors.Queue.Mpmc.Invariant.{Knows, place, IsQueue}
use algors.Queue.Mpmc.Claims.{local-IsQueue}
use algors.Queue.Mpmc.Seen.{taking, IsFull, IsEmpty}

module _ {ℓ} {A : Type ℓ} where
  -- No value is accepted and none is claimed by a consumer.
  abbrev pub IsSame : Inner A → List A → Call A → Inner A → Call A → List A → Type ℓ
  IsSame inner vals c inner' c' vals' =
      (vals' ≡ vals) × (inner'.head ≡ inner.head) × (taking c' ≡ taking c)

  -- What an event of a call that goes on from `c` to `c'` does to the queue, in which the values of
  -- `vals` were accepted and the first `inner.head` of them claimed by consumers.
  abbrev pub Spec :
      ℕ → Inner A → (ℕ → Call A) → List A → Call A → Event A → Inner A → Call A → List A → Type ℓ
  Spec room inner calls vals c silent inner' c' vals' = IsSame inner vals c inner' c' vals'
  Spec room inner calls vals c (claimed v) inner' c' vals' =
      (length vals < inner.head + room)
      × (vals' ≡ vals ++ v ∷ [])
      × (inner'.head ≡ inner.head)
      × (taking c' ≡ taking c)
  Spec room inner calls vals c reserved inner' c' vals' =
      (inner.head < length vals)
      × (vals' ≡ vals)
      × (inner'.head ≡ suc inner.head)
      × (taking c ≡ none)
      × (taking c' ≡ some inner.head)
  Spec room inner calls vals c (pushed p v) inner' c' vals' =
      (get_elem? vals p ≡ some v) × IsSame inner vals c inner' c' vals'
  Spec room inner calls vals c (refused v) inner' c' vals' =
      IsFull room inner.head (length vals) calls × IsSame inner vals c inner' c' vals'
  Spec room inner calls vals c (popped p v) inner' c' vals' =
      (get_elem? vals p ≡ some v)
      × (vals' ≡ vals)
      × (inner'.head ≡ inner.head)
      × (taking c ≡ some p)
      × (taking c' ≡ none)
  Spec room inner calls vals c found_empty inner' c' vals' =
      IsEmpty inner.head (length vals) calls × IsSame inner vals c inner' c' vals'

  -- A piece of the call `c` of thread `i` leaves a queue that its event explains.
  abbrev pub Explained :
      ℕ → Inner A → (ℕ → Call A) → List A → ℕ → Call A → Event A × Inner A × Call A → Type ℓ
  Explained room inner calls vals i c (e, inner', c') =
      (vals' : List A) × IsQueue room inner' (assign calls i c') vals'
      × Spec room inner calls vals c e inner' c' vals'

  -- A piece that changes nothing that is shared.
  pub local-Explained :
      (room : ℕ) (inner : Inner A) (calls : ℕ → Call A) (vals : List A) (i : ℕ) (c c' : Call A)
      → IsQueue room inner calls vals
      → calls i ≡ c
      → place c ≡ none
      → place c' ≡ none
      → taking c' ≡ taking c
      → Knows room inner vals c'
      → Explained room inner calls vals i c (silent, inner, c')
  local-Explained room inner calls vals i c c' inv is nowhere nowhere' same knows = (
    vals,
    local-IsQueue room inner calls vals inv i c' (ap place is ∙ nowhere) knows nowhere',
    (refl, refl, same),
  )
