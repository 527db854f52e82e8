-- ===== src/Queue/Mpmc/Claims.antt =====
-- algors-queue/src/mpmc.rs: a compare-exchange that succeeds claims a slot that is free, or one with a value
-- that was published, and keeps what all other calls know.
pub mod Tail
pub mod Head
use native.Mathlib.Nat.{add-mod_right, mod-lt}
use algors.Prelude.{
  ℕ, zero, suc, ◌+◌, ◌-◌, ◌%◌, ◌≤◌, ◌<◌, ◌≡◌, ◌≢◌, refl, sym, ap, ◌∙◌, subst, List, [], ◌∷◌, ◌++◌,
  Option, none, some, arith, length, length-append, get_elem?, ℕ_discrete,
}
use algors.Queue.Mpmc.{
  Slot, Inner, Call, outside, push_load, push_look, push_claim, push_write, push_publish, pop_load,
  pop_look, pop_claim, pop_read, pop_release, assign,
}
use algors.Queue.Mpmc.Invariant.{
  same_slot_near, Holds, Holds-same, Knows, place, IsSlot, free, ready, owned, IsQueue, filling,
  emptying, Knows-IsOwned,
}
use algors.Queue.Mpmc.Slots.{assign_self, assign_other, assign-all, assign_unique}

module _ {ℓ} {A : Type ℓ} where
  pub get_elem?-append_some :
      (xs ys : List A) (i : ℕ) (x : A) → get_elem? xs i ≡ some x → get_elem? (xs ++ ys) i ≡ some x
  get_elem?-append_some [] ys i x e = cc
  get_elem?-append_some (y ∷ xs) ys zero x e = e
  get_elem?-append_some (y ∷ xs) ys (suc i) x e = get_elem?-append_some xs ys i x e

  pub get_elem?-append_last :
      (xs : List A) (x : A) (i : ℕ) → length xs ≡ i → get_elem? (xs ++ x ∷ []) i ≡ some x
  get_elem?-append_last [] x zero e = refl
  get_elem?-append_last [] x (suc i) e = absurd (omega arith)
  get_elem?-append_last (y ∷ xs) x zero e = absurd (omega arith)
  get_elem?-append_last (y ∷ xs) x (suc i) e = get_elem?-append_last xs x i (omega arith)

  module _ (room : ℕ) (inner : Inner A) (calls : ℕ → Call A) (vals : List A)
      (inv : IsQueue room inner calls vals) (i : ℕ) (c' : Call A)
      (no_place : place (calls i) ≡ none) where
    -- A slot of another call stays with it.
    pub still-owned : (j p : ℕ) → place (calls j) ≡ some p → place (assign calls i c' j) ≡ some p
    still-owned j p e = elim (ℕ_discrete i j) [
      | yes same ↦
          let clash : none ≡ some p = sym no_place ∙ ap (λ k. place (calls k)) same ∙ e in cc
      | no other ↦ ap place (assign_other calls i j c' other) ∙ e
    ]

    pub IsSlot-assign :
        (p : ℕ) → IsSlot room inner calls vals p → IsSlot room inner (assign calls i c') vals p
    IsSlot-assign p (free holds ge lt) = free holds ge lt
    IsSlot-assign p (ready v holds val ge lt) = ready v holds val ge lt
    IsSlot-assign p (owned j e) = owned j (still-owned j p e)

    -- A call that owns no slot goes on, and changes nothing that is shared.
    pub local-IsQueue :
        Knows room inner vals c' → place c' ≡ none → IsQueue room inner (assign calls i c') vals
    local-IsQueue mine nowhere = record {
      two = inv.two;
      size = inv.size;
      count = inv.count;
      order = inv.order;
      fits = inv.fits;
      knows = λ j. assign-all (Knows room inner vals) calls i j c' mine λ ne. inv.knows j;
      unique =
          assign_unique calls i c' inv.unique
            λ j p e f. let clash : none ≡ some p = sym nowhere ∙ e in cc;
      slots = λ j lt. let (p, e, slot) = inv.slots j lt in (p, e, IsSlot-assign p slot);
    }

  module _ (room : ℕ) (inner : Inner A) (calls : ℕ → Call A) (vals : List A)
      (inv : IsQueue room inner calls vals) (p : ℕ) (x : Option A) where
    -- The next slot to push to is free, if its sequence number says so.
    pub tail-free :
        p ≡ inner.tail
        → Holds room inner.buf p p x
        → Holds room inner.buf p p none × (p < inner.head + room)
    tail-free at holds =
        let (q, e, slot) = inv.slots (p % room) (mod-lt p {m = room} (omega (arith, inv.two))) in
        elim slot [
          | free here ge lt ↦
              let (seq, same) = Holds-same room inner.buf q p q p none x e here holds in
              (subst (λ y. Holds room inner.buf p p y) (sym same) holds, omega arith)
          | ready v here val ge lt ↦
              let (seq, same) = Holds-same room inner.buf q p (suc q) p (some v) x e here holds in
              let near : q ≡ p = same_slot_near room q p inv.two e (omega arith) (omega arith) in
              absurd (omega arith)
          | owned j place_j ↦
              elim (Knows-IsOwned room inner vals (calls j) q (inv.knows j) place_j) [
                | filling y here ge lt ↦
                    let (seq, same) = Holds-same room inner.buf q p q p y x e here holds in
                    absurd (omega arith)
                | emptying y here lt le ↦
                    let (seq, same) = Holds-same room inner.buf q p (suc q) p y x e here holds in
                    let near : q ≡ p =
                      same_slot_near room q p inv.two e (omega arith) (omega arith) in
                    absurd (omega arith)
              ]
        ]

    -- The next slot to pop from has its value, if its sequence number says so.
    pub head-ready :
        p ≡ inner.head
        → Holds room inner.buf p (suc p) x
        → (p < inner.tail)
          × ((v : A) × Holds room inner.buf p (suc p) (some v) × (get_elem? vals p ≡ some v))
    head-ready at holds =
        let (q, e, slot) = inv.slots (p % room) (mod-lt p {m = room} (omega (arith, inv.two))) in
        elim slot [
          | free here ge lt ↦
              let (seq, same) = Holds-same room inner.buf q p q (suc p) none x e here holds in
              let near : q ≡ p = same_slot_near room q p inv.two e (omega arith) (omega arith) in
              absurd (omega arith)
          | ready v here val ge lt ↦
              let (seq, same) =
                Holds-same room inner.buf q p (suc q) (suc p) (some v) x e here holds in
              let near : q ≡ p = omega arith in
              (
                omega arith,
                (
                  v,
                  subst (λ k. Holds room inner.buf k (suc k) (some v)) near here,
                  subst (λ k. get_elem? vals k ≡ some v) near val,
                ),
              )
          | owned j place_j ↦
              elim (Knows-IsOwned room inner vals (calls j) q (inv.knows j) place_j) [
                | filling y here ge lt ↦
                    let (seq, same) = Holds-same room inner.buf q p q (suc p) y x e here holds in
                    let near : q ≡ p =
                      same_slot_near room q p inv.two e (omega arith) (omega arith) in
                    absurd (omega arith)
                | emptying y here lt le ↦
                    let (seq, same) =
                      Holds-same room inner.buf q p (suc q) (suc p) y x e here holds in
                    absurd (omega arith)
              ]
        ]
