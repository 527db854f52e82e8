-- ===== src/Queue/Mpmc/Seen.antt =====
-- algors-queue/src/mpmc.rs: what a sequence number that a call loads says about the queue.
use native.Mathlib.Nat.{mod-lt}
use algors.Prelude.{
  ℕ, suc, ◌+◌, ◌%◌, ◌≤◌, ◌<◌, ◌≡◌, ap, ◌∙◌, subst, ◌⊎◌, inl, inr, List, Option, none, some, arith,
  get_elem?,
}
use algors.Queue.Mpmc.{
  Inner, Call, outside, push_load, push_look, push_claim, push_write, push_publish, pop_load,
  pop_look, pop_claim, pop_read, pop_release,
}
use algors.Queue.Mpmc.Invariant.{
  same_slot_next, with_seq, Holds, Knows, place, free, ready, owned, IsQueue, filling, emptying,
  Knows-IsOwned,
}

module _ {ℓ} {A : Type ℓ} where
  -- The position whose value the call is to publish.
  abbrev pub placing : Call A → Option ℕ
  placing (push_write v p) = some p
  placing (push_publish v p) = some p
  placing _ = none

  -- The position whose value the call is to return.
  abbrev pub taking : Call A → Option ℕ
  taking (pop_read p) = some p
  taking (pop_release p v) = some p
  taking _ = none

  -- No slot is free for the next value: there are as many values as slots, or the slot is of a call of
  -- `try_pop` that has not released it yet.
  abbrev pub IsFull : ℕ → ℕ → ℕ → (ℕ → Call A) → Type 0
  IsFull room h t calls =
      (t ≡ h + room) ⊎ ((j : ℕ) × (q : ℕ) × (taking (calls j) ≡ some q) × (q + room ≡ t))

  -- No value is there to take: all are claimed, or the next one is of a call of `try_push` that has not
  -- published it yet.
  abbrev pub IsEmpty : ℕ → ℕ → (ℕ → Call A) → Type 0
  IsEmpty h t calls = (t ≡ h) ⊎ ((j : ℕ) × (placing (calls j) ≡ some h))

  place-taking :
      (room : ℕ) (inner : Inner A) (vals : List A) (c : Call A) (q : ℕ)
      → Knows room inner vals c
      → place c ≡ some q
      → q < inner.head
      → taking c ≡ some q
  place-taking room inner vals (push_write v p) q (le, lt, holds, val) e below =
      let same : p ≡ q = cc in absurd (omega arith)
  place-taking room inner vals (push_publish v p) q (le, lt, holds, val) e below =
      let same : p ≡ q = cc in absurd (omega arith)
  place-taking room inner vals (pop_read p) q k e below = e
  place-taking room inner vals (pop_release p v) q k e below = e
  place-taking room inner vals outside q k e below = cc
  place-taking room inner vals (push_load v) q k e below = cc
  place-taking room inner vals (push_look v p) q k e below = cc
  place-taking room inner vals (push_claim v p) q k e below = cc
  place-taking room inner vals pop_load q k e below = cc
  place-taking room inner vals (pop_look p) q k e below = cc
  place-taking room inner vals (pop_claim p) q k e below = cc

  place-placing :
      (room : ℕ) (inner : Inner A) (vals : List A) (c : Call A) (q : ℕ)
      → Knows room inner vals c
      → place c ≡ some q
      → inner.head ≤ q
      → placing c ≡ some q
  place-placing room inner vals (push_write v p) q k e above = e
  place-placing room inner vals (push_publish v p) q k e above = e
  place-placing room inner vals (pop_read p) q (lt, le, k) e above =
      let same : p ≡ q = cc in absurd (omega arith)
  place-placing room inner vals (pop_release p v) q (lt, le, holds, val) e above =
      let same : p ≡ q = cc in absurd (omega arith)
  place-placing room inner vals outside q k e above = cc
  place-placing room inner vals (push_load v) q k e above = cc
  place-placing room inner vals (push_look v p) q k e above = cc
  place-placing room inner vals (push_claim v p) q k e above = cc
  place-placing room inner vals pop_load q k e above = cc
  place-placing room inner vals (pop_look p) q k e above = cc
  place-placing room inner vals (pop_claim p) q k e above = cc

  module _ (room : ℕ) (inner : Inner A) (calls : ℕ → Call A) (vals : List A)
      (inv : IsQueue room inner calls vals) (p : ℕ) where
    open inv use {order, fits}

    -- A slot with its sequence number, and what a number below `n` says.
    abbrev pub Seen : ℕ → Type 0 → Type ℓ
    Seen n Below =
        (seq : ℕ) × (x : Option A) × Holds room inner.buf p seq x
        × (seq ≤ inner.tail + room)
        × (seq < n → Below)

    here :
        (q seq : ℕ) (x : Option A)
        → q % room ≡ p % room
        → Holds room inner.buf q seq x
        → Holds room inner.buf p seq x
    here q seq x e holds = subst (λ k. get_elem? inner.buf k ≡ some (with_seq seq x)) e holds

    pub push-Seen : p ≤ inner.tail → Seen p (IsFull room inner.head inner.tail calls)
    push-Seen le =
        let (q, e, slot) = inv.slots (p % room) (mod-lt p {m = room} (omega (arith, inv.two))) in
        elim slot [
          | free holds ge lt ↦
              (q, none, here q q none e holds, omega (arith, order), λ below. absurd (omega arith))
          | ready v holds val ge lt ↦ (
            suc q,
            some v,
            here q (suc q) (some v) e holds,
            omega (arith, inv.two),
            λ below.
                let round = same_slot_next room q p e (omega arith) (omega (arith, fits)) in
                inl (omega (arith, fits)),
          )
          | owned j place_j ↦
              elim (Knows-IsOwned room inner vals (calls j) q (inv.knows j) place_j) [
                | filling x holds ge lt ↦ (
                  q,
                  x,
                  here q q x e holds,
                  omega arith,
                  λ below.
                      let round = same_slot_next room q p e (omega arith) (omega (arith, fits)) in
                      inl (omega (arith, fits)),
                )
                | emptying x holds lt ge ↦ (
                  suc q,
                  x,
                  here q (suc q) x e holds,
                  omega (arith, order, inv.two),
                  λ below.
                      let round = same_slot_next room q p e (omega arith) (omega arith) in
                      inr (
                        j,
                        q,
                        place-taking room inner vals (calls j) q (inv.knows j) place_j lt,
                        omega arith,
                      ),
                )
              ]
        ]

    pub pop-Seen : p ≤ inner.head → Seen (suc p) (IsEmpty inner.head inner.tail calls)
    pop-Seen le =
        let (q, e, slot) = inv.slots (p % room) (mod-lt p {m = room} (omega (arith, inv.two))) in
        elim slot [
          | free holds ge lt ↦ (
            q,
            none,
            here q q none e holds,
            omega (arith, order),
            λ below. inl (omega (arith, order)),
          )
          | ready v holds val ge lt ↦ (
            suc q,
            some v,
            here q (suc q) (some v) e holds,
            omega (arith, inv.two),
            λ below. absurd (omega arith),
          )
          | owned j place_j ↦
              elim (Knows-IsOwned room inner vals (calls j) q (inv.knows j) place_j) [
                | filling x holds ge lt ↦ (
                  q,
                  x,
                  here q q x e holds,
                  omega arith,
                  λ below.
                      let same : q ≡ inner.head = omega arith in
                      inr (
                        j,
                        place-placing room inner vals (calls j) q (inv.knows j) place_j ge
                            ∙ ap some same,
                      ),
                )
                | emptying x holds lt ge ↦ (
                  suc q,
                  x,
                  here q (suc q) x e holds,
                  omega (arith, order, inv.two),
                  λ below.
                      let round = same_slot_next room q p e (omega arith) (omega (arith, order)) in
                      inl (omega (arith, order)),
                )
              ]
        ]
