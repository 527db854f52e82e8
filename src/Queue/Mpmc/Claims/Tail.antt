-- ===== src/Queue/Mpmc/Claims/Tail.antt =====
-- algors-queue/src/mpmc.rs: `compare_exchange_weak` of the tail, when it succeeds.
use native.Mathlib.Nat.{add-mod_right}
use algors.Prelude.{
  ℕ, suc, ◌+◌, ◌%◌, ◌≤◌, ◌≡◌, ◌≢◌, sym, ap, ◌∙◌, List, [], ◌∷◌, ◌++◌, Option, none, some, arith,
  length-append, ℕ_discrete,
}
use algors.Queue.Mpmc.{
  Inner, Call, outside, push_load, push_look, push_claim, push_write, push_publish, pop_load,
  pop_look, pop_claim, pop_read, pop_release, assign,
}
use algors.Queue.Mpmc.Invariant.{
  Holds, Holds-same, Knows, place, IsSlot, free, ready, owned, IsQueue, filling, emptying,
  Knows-IsOwned,
}
use algors.Queue.Mpmc.Slots.{assign_self, assign-all, assign_unique}
use algors.Queue.Mpmc.Claims.{get_elem?-append_some, get_elem?-append_last, still-owned, tail-free}

module _ {ℓ} {A : Type ℓ} (room : ℕ) (inner : Inner A) (calls : ℕ → Call A) (vals : List A)
    (inv : IsQueue room inner calls vals) (i p : ℕ) (v : A) (at : p ≡ inner.tail)
    (here : Holds room inner.buf p p none) where
  abbrev longer : Inner A
  longer = record inner { tail = suc p }

  -- A slot that a value is moved out of is not the next one to push to.
  not-yet :
      (q : ℕ) (x : Option A)
      → Holds room inner.buf q (suc q) x
      → inner.tail ≤ q + room
      → suc p ≤ q + room
  not-yet q x holds le = elim (ℕ_discrete p (q + room)) [
    | yes around ↦
        let same : p % room ≡ q % room = ap (λ k. k % room) around ∙ add-mod_right q room in
        let (seq, none_x) = Holds-same room inner.buf p q p (suc q) none x same here holds in
        absurd (omega (arith, inv.two))
    | no before ↦ omega arith
  ]

  Knows-longer : (c : Call A) → Knows room inner vals c → Knows room longer (vals ++ v ∷ []) c
  Knows-longer outside k = tt
  Knows-longer (push_load w) k = tt
  Knows-longer (push_look w q) (le, k) = (omega arith, tt)
  Knows-longer (push_claim w q) (le, last) = (omega arith, λ e. absurd (omega arith))
  Knows-longer (push_write w q) (le, lt, holds, val) =
      (le, omega arith, holds, get_elem?-append_some vals (v ∷ []) q w val)
  Knows-longer (push_publish w q) (le, lt, holds, val) =
      (le, omega arith, holds, get_elem?-append_some vals (v ∷ []) q w val)
  Knows-longer pop_load k = tt
  Knows-longer (pop_look q) k = k
  Knows-longer (pop_claim q) k = k
  Knows-longer (pop_read q) (lt, le, (w, holds, val)) =
      (lt, not-yet q (some w) holds le, (w, holds, get_elem?-append_some vals (v ∷ []) q w val))
  Knows-longer (pop_release q w) (lt, le, holds, val) =
      (lt, not-yet q none holds le, holds, get_elem?-append_some vals (v ∷ []) q w val)

  module _ (no_place : place (calls i) ≡ none) where
    IsSlot-longer :
        (q : ℕ)
        → p % room ≢ q % room
        → IsSlot room inner calls vals q
        → IsSlot room longer (assign calls i (push_write v p)) (vals ++ v ∷ []) q
    IsSlot-longer q ne (free holds ge lt) =
        let other : p ≢ q = λ e. ne (ap (λ k. k % room) e) in free holds (omega arith) lt
    IsSlot-longer q ne (ready w holds val ge lt) =
        ready w holds (get_elem?-append_some vals (v ∷ []) q w val) ge (omega arith)
    IsSlot-longer q ne (owned j e) =
        owned j (still-owned room inner calls vals inv i (push_write v p) no_place j q e)

    -- No call has a slot for the next position.
    fresh : (j q : ℕ) → p ≡ q → place (calls j) ≡ some q → ⊥
    fresh j q e place_j = elim (Knows-IsOwned room inner vals (calls j) q (inv.knows j) place_j) [
      | filling x holds ge lt ↦ omega arith
      | emptying x holds lt le ↦ omega (arith, inv.order)
    ]

    -- The call that moves the tail has the slot, and its value is accepted.
    pub tail-IsQueue : IsQueue room longer (assign calls i (push_write v p)) (vals ++ v ∷ [])
    tail-IsQueue =
        let (still, fits) = tail-free room inner calls vals inv p none at here in
        record {
          two = inv.two;
          size = inv.size;
          count = omega (arith, length-append vals (v ∷ []), inv.count);
          order = omega (arith, inv.order);
          fits = omega arith;
          knows = λ j.
              assign-all (Knows room longer (vals ++ v ∷ [])) calls i j (push_write v p)
                (
                  omega (arith, inv.order),
                  omega arith,
                  here,
                  get_elem?-append_last vals v p (inv.count ∙ sym at),
                )
                λ ne. Knows-longer (calls j) (inv.knows j);
          unique =
              assign_unique calls i (push_write v p) inv.unique
                λ j q e f. absurd (fresh j q (cc) f);
          slots = λ j lt. elim (ℕ_discrete (p % room) j) [
            | yes same ↦ (p, same, owned i (ap place (assign_self calls i (push_write v p))))
            | no other ↦
                let (q, e, slot) = inv.slots j lt in
                (q, e, IsSlot-longer q (λ h. other (h ∙ e)) slot)
          ];
        }
