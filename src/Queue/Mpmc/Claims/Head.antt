-- ===== src/Queue/Mpmc/Claims/Head.antt =====
-- algors-queue/src/mpmc.rs: `compare_exchange_weak` of the head, when it succeeds.
use algors.Prelude.{
  ℕ, suc, ◌%◌, ◌≤◌, ◌≡◌, ◌≢◌, ap, ◌∙◌, List, Option, none, some, arith, ℕ_discrete,
}
use algors.Queue.Mpmc.{
  Inner, Call, outside, push_load, push_look, push_claim, push_write, push_publish, pop_load,
  pop_look, pop_claim, pop_read, pop_release, assign,
}
use algors.Queue.Mpmc.Invariant.{
  Holds, Holds-same, Knows, place, IsSlot, free, ready, owned, IsQueue, filling, emptying,
  Knows-IsOwned,
}
use algors.Queue.Mpmc.Slots.{assign_self, assign-all, assign_unique}
use algors.Queue.Mpmc.Claims.{still-owned, head-ready}

module _ {ℓ} {A : Type ℓ} (room : ℕ) (inner : Inner A) (calls : ℕ → Call A) (vals : List A)
    (inv : IsQueue room inner calls vals) (i p : ℕ) (x : Option A) (at : p ≡ inner.head)
    (here : Holds room inner.buf p (suc p) x) where
  abbrev shorter : Inner A
  shorter = record inner { head = suc p }

  -- A slot that a value is still to be published in is not the next one to pop from.
  not-it : (q : ℕ) (y : Option A) → Holds room inner.buf q q y → inner.head ≤ q → suc p ≤ q
  not-it q y holds le = elim (ℕ_discrete p q) [
    | yes same ↦
        let (seq, same_x) =
          Holds-same room inner.buf p q (suc p) q x y (ap (λ k. k % room) same) here holds in
        absurd (omega arith)
    | no other ↦ omega arith
  ]

  Knows-shorter : (c : Call A) → Knows room inner vals c → Knows room shorter vals c
  Knows-shorter outside k = tt
  Knows-shorter (push_load w) k = tt
  Knows-shorter (push_look w q) k = k
  Knows-shorter (push_claim w q) k = k
  Knows-shorter (push_write w q) (le, lt, holds, val) = (not-it q none holds le, lt, holds, val)
  Knows-shorter (push_publish w q) (le, lt, holds, val) =
      (not-it q (some w) holds le, lt, holds, val)
  Knows-shorter pop_load k = tt
  Knows-shorter (pop_look q) (le, k) = (omega arith, tt)
  Knows-shorter (pop_claim q) (le, last) = (omega arith, λ e. absurd (omega arith))
  Knows-shorter (pop_read q) (lt, le, k) = (omega arith, le, k)
  Knows-shorter (pop_release q w) (lt, le, holds, val) = (omega arith, le, holds, val)

  module _ (no_place : place (calls i) ≡ none) where
    IsSlot-shorter :
        (q : ℕ)
        → p % room ≢ q % room
        → IsSlot room inner calls vals q
        → IsSlot room shorter (assign calls i (pop_read p)) vals q
    IsSlot-shorter q ne (free holds ge lt) = free holds ge (omega arith)
    IsSlot-shorter q ne (ready w holds val ge lt) =
        let other : p ≢ q = λ e. ne (ap (λ k. k % room) e) in ready w holds val (omega arith) lt
    IsSlot-shorter q ne (owned j e) =
        owned j (still-owned room inner calls vals inv i (pop_read p) no_place j q e)

    -- No call has the slot of the head, while that is published.
    free_head : (j q : ℕ) → p ≡ q → place (calls j) ≡ some q → ⊥
    free_head j q e place_j =
        elim (Knows-IsOwned room inner vals (calls j) q (inv.knows j) place_j) [
          | filling y holds ge lt ↦
              let (seq, same) =
                Holds-same room inner.buf p q (suc p) q x y (ap (λ k. k % room) e) here holds in
              omega arith
          | emptying y holds lt le ↦ omega arith
        ]

    -- The call that moves the head has the slot.
    pub head-IsQueue : IsQueue room shorter (assign calls i (pop_read p)) vals
    head-IsQueue =
        let (before, full) = head-ready room inner calls vals inv p x at here in
        record {
          two = inv.two;
          size = inv.size;
          count = inv.count;
          order = omega arith;
          fits = omega (arith, inv.fits);
          knows = λ j.
              assign-all (Knows room shorter vals) calls i j (pop_read p)
                (omega arith, omega (arith, inv.fits), full)
                λ ne. Knows-shorter (calls j) (inv.knows j);
          unique =
              assign_unique calls i (pop_read p) inv.unique
                λ j q e f. absurd (free_head j q (cc) f);
          slots = λ j lt. elim (ℕ_discrete (p % room) j) [
            | yes same ↦ (p, same, owned i (ap place (assign_self calls i (pop_read p))))
            | no other ↦
                let (q, e, slot) = inv.slots j lt in
                (q, e, IsSlot-shorter q (λ h. other (h ∙ e)) slot)
          ];
        }
