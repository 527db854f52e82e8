-- ===== src/Queue/Mpmc/Slots.antt =====
-- algors-queue/src/mpmc.rs: a call that changes the slot that it owns, and nothing else that is shared, keeps
-- what all other calls know.
use native.Mathlib.Nat.{mod-lt}
use algors.Prelude.{
  ℕ, zero, suc, ◌%◌, ◌≤◌, ◌<◌, ◌≡◌, ◌≢◌, ◌⊎◌, refl, sym, ap, ◌∙◌, subst, List, [], ◌∷◌, Option,
  none, some, true, false, arith, ◌==◌, if◌then◌else◌, inl, inr, length, length-set, get_elem?, set,
  ℕ_discrete,
}
use algors.Queue.Mpmc.{
  Slot, Inner, Call, outside, push_load, push_look, push_claim, push_write, push_publish, pop_load,
  pop_look, pop_claim, pop_read, pop_release, assign,
}
use algors.Queue.Mpmc.Invariant.{
  same_slot_near, Holds, Holds-same, Knows, place, IsSlot, free, ready, owned, IsQueue, IsOwned,
  filling, emptying, Knows-IsOwned, IsOwned-same,
}

pub get_elem?-set {ℓ} :
    {A : Type ℓ} (xs : List A) (i j : ℕ) (x : A)
    → i < length xs
    → get_elem? (set xs i x) j ≡ (if i == j then some x else get_elem? xs j)
get_elem?-set [] i j x lt = absurd (omega arith)
get_elem?-set (y ∷ xs) zero zero x lt = ground arith
get_elem?-set (y ∷ xs) zero (suc j) x lt = ground arith
get_elem?-set (y ∷ xs) (suc i) zero x lt = ground arith
get_elem?-set (y ∷ xs) (suc i) (suc j) x lt = ground (arith, get_elem?-set xs i j x)

module _ {ℓ} {A : Type ℓ} where
  pub assign_self : (calls : ℕ → Call A) (i : ℕ) (c : Call A) → assign calls i c i ≡ c
  assign_self calls i c = let e : (i == i) ≡ true = ground arith in rw e

  pub assign_other :
      (calls : ℕ → Call A) (i j : ℕ) (c : Call A) → i ≢ j → assign calls i c j ≡ calls j
  assign_other calls i j c ne = let e : (i == j) ≡ false = ground arith in rw e

  pub Holds-set :
      (room : ℕ) (buf : List (Slot A)) (p : ℕ) (n : ℕ) (x : Option A)
      → 0 < room
      → length buf ≡ room
      → Holds room (set buf (p % room) (record { seq = n; value = x })) p n x
  Holds-set room buf p n x pos size =
      let e : (p % room == p % room) ≡ true = ground arith in
      get_elem?-set buf (p % room) (p % room) (record { seq = n; value = x })
        (rw size (mod-lt p {m = room} pos))
      ∙ rw e

  pub Holds-set_other :
      (room : ℕ) (buf : List (Slot A)) (p q n : ℕ) (s : Slot A) (x : Option A)
      → 0 < room
      → length buf ≡ room
      → p % room ≢ q % room
      → Holds room buf q n x
      → Holds room (set buf (p % room) s) q n x
  Holds-set_other room buf p q n s x pos size ne holds =
      let e : (p % room == q % room) ≡ false = ground arith in
      get_elem?-set buf (p % room) (q % room) s (rw size (mod-lt p {m = room} pos)) ∙ rw e holds

  -- The place of a call is its own.
  pub Knows-unique :
      (room : ℕ) (inner : Inner A) (calls : ℕ → Call A) (vals : List A) (i j p q : ℕ)
      → IsQueue room inner calls vals
      → place (calls i) ≡ some p
      → place (calls j) ≡ some q
      → i ≢ j
      → p % room ≢ q % room
  Knows-unique room inner calls vals i j p q inv own other ne e =
      let same : p ≡ q =
        IsOwned-same room inner p q inv.two
          (Knows-IsOwned room inner vals (calls i) p (inv.knows i) own)
          (Knows-IsOwned room inner vals (calls j) q (inv.knows j) other) e in
      ne (inv.unique i j p own (other ∙ ap some (sym same)))

  module _ (room : ℕ) (inner : Inner A) (vals : List A) (p : ℕ) (s : Slot A) (two : 2 ≤ room)
      (size : length inner.buf ≡ room) (o : IsOwned room inner p) where
    abbrev inner' : Inner A
    inner' = record inner { buf = set inner.buf (p % room) s }

    keeps :
        (q n : ℕ) (x : Option A)
        → p % room ≢ q % room
        → Holds room inner.buf q n x
        → Holds room inner'.buf q n x
    keeps q n x = Holds-set_other room inner.buf p q n s x (omega arith) size

    tail-apart :
        (q : ℕ) (x : Option A) → q ≡ inner.tail → Holds room inner.buf q q x → p % room ≢ q % room
    tail-apart q x at holds e = elim o [
      | filling y h le lt ↦
          let (seq, same) = Holds-same room inner.buf p q p q y x e h holds in omega arith
      | emptying y h lt le ↦
          let (seq, same) = Holds-same room inner.buf p q (suc p) q y x e h holds in
          let near : p ≡ q = same_slot_near room p q two e (omega arith) (omega arith) in
          omega arith
    ]

    head-apart :
        (q : ℕ) (x : Option A)
        → q ≡ inner.head
        → Holds room inner.buf q (suc q) x
        → p % room ≢ q % room
    head-apart q x at holds e = elim o [
      | filling y h le lt ↦
          let (seq, same) = Holds-same room inner.buf p q p (suc q) y x e h holds in
          let near : p ≡ q = same_slot_near room p q two e (omega arith) (omega arith) in
          omega arith
      | emptying y h lt le ↦
          let (seq, same) = Holds-same room inner.buf p q (suc p) (suc q) y x e h holds in
          omega arith
    ]

    Knows-set :
        (c : Call A)
        → ((q : ℕ) → place c ≡ some q → p % room ≢ q % room)
        → Knows room inner vals c
        → Knows room inner' vals c
    Knows-set outside ne k = tt
    Knows-set (push_load v) ne k = tt
    Knows-set (push_look v q) ne k = k
    Knows-set (push_claim v q) ne (le, last) =
        (le, λ at. let (x, holds) = last at in (x, keeps q q x (tail-apart q x at holds) holds))
    Knows-set (push_write v q) ne (le, lt, holds, val) =
        (le, lt, keeps q q none (ne q refl) holds, val)
    Knows-set (push_publish v q) ne (le, lt, holds, val) =
        (le, lt, keeps q q (some v) (ne q refl) holds, val)
    Knows-set pop_load ne k = tt
    Knows-set (pop_look q) ne k = k
    Knows-set (pop_claim q) ne (le, last) = (
      le,
      λ at. let (x, holds) = last at in (x, keeps q (suc q) x (head-apart q x at holds) holds),
    )
    Knows-set (pop_read q) ne (lt, le, (v, holds, val)) =
        (lt, le, (v, keeps q (suc q) (some v) (ne q refl) holds, val))
    Knows-set (pop_release q v) ne (lt, le, holds, val) =
        (lt, le, keeps q (suc q) none (ne q refl) holds, val)

  -- Each call is the one that goes on or another one.
  pub assign-all {κ} :
      (P : Call A → Type κ) (calls : ℕ → Call A) (i j : ℕ) (c : Call A)
      → P c
      → (i ≢ j → P (calls j))
      → P (assign calls i c j)
  assign-all P calls i j c here there = elim (ℕ_discrete i j) [
    | yes same ↦
        subst (λ k. P (assign calls i c k)) same (subst P (sym (assign_self calls i c)) here)
    | no other ↦ subst P (sym (assign_other calls i j c other)) (there other)
  ]

  -- A place stays with its call, or is that of the call that goes on.
  pub place-assign :
      (calls : ℕ → Call A) (i j q : ℕ) (c : Call A)
      → place (assign calls i c j) ≡ some q
      → ((i ≡ j) × (place c ≡ some q)) ⊎ ((i ≢ j) × (place (calls j) ≡ some q))
  place-assign calls i j q c e = elim (ℕ_discrete i j) [
    | yes same ↦
        let self : assign calls i c j ≡ c =
          subst (λ k. assign calls i c k ≡ c) same (assign_self calls i c) in
        inl (same, sym (ap place self) ∙ e)
    | no other ↦ inr (other, sym (ap place (assign_other calls i j c other)) ∙ e)
  ]

  pub assign_unique :
      (calls : ℕ → Call A) (i : ℕ) (c : Call A)
      → ((j k p : ℕ) → place (calls j) ≡ some p → place (calls k) ≡ some p → j ≡ k)
      → ((j p : ℕ) → place c ≡ some p → place (calls j) ≡ some p → i ≡ j)
      → (j k p : ℕ) → place (assign calls i c j) ≡ some p
      → place (assign calls i c k) ≡ some p
      → j ≡ k
  assign_unique calls i c unique mine j k p at_j at_k = elim (place-assign calls i j p c at_j) [
    | inl (ij, here) ↦ elim (place-assign calls i k p c at_k) [
      | inl (ik, also) ↦ sym ij ∙ ik
      | inr (ne, there) ↦ sym ij ∙ mine k p here there
    ]
    | inr (ne, there) ↦ elim (place-assign calls i k p c at_k) [
      | inl (ik, here) ↦ sym (mine j p here there) ∙ ik
      | inr (ne', also) ↦ unique j k p there also
    ]
  ]

  module _ (room : ℕ) (inner : Inner A) (calls : ℕ → Call A) (vals : List A)
      (inv : IsQueue room inner calls vals) (i p : ℕ) (own : place (calls i) ≡ some p) (s : Slot A)
      (c' : Call A) where
    abbrev stored : Inner A
    stored = record inner { buf = set inner.buf (p % room) s }

    IsSlot-set :
        (q : ℕ)
        → p % room ≢ q % room
        → IsSlot room inner calls vals q
        → IsSlot room stored (assign calls i c') vals q
    IsSlot-set q ne (free holds ge lt) =
        free
          (Holds-set_other room inner.buf p q q s none (omega (arith, inv.two)) inv.size ne holds)
          ge lt
    IsSlot-set q ne (ready v holds val ge lt) =
        ready v
          (Holds-set_other room inner.buf p q (suc q) s (some v) (omega (arith, inv.two)) inv.size
            ne holds)
          val ge lt
    IsSlot-set q ne (owned j e) = elim (ℕ_discrete i j) [
      | yes same ↦
          let here : some p ≡ some q = sym own ∙ ap (λ k. place (calls k)) same ∙ e in
          let at : p ≡ q = cc in absurd (ne (ap (λ k. k % room) at))
      | no other ↦ owned j (ap place (assign_other calls i j c' other) ∙ e)
    ]

    -- The call stores to the slot that it owns.
    pub store-IsQueue :
        (p' : ℕ)
        → p' % room ≡ p % room
        → Knows room stored vals c'
        → ((q : ℕ) → place c' ≡ some q → q ≡ p)
        → IsSlot room stored (assign calls i c') vals p'
        → IsQueue room stored (assign calls i c') vals
    store-IsQueue p' same mine at slot' = record {
      two = inv.two;
      size = length-set inner.buf (p % room) s ∙ inv.size;
      count = inv.count;
      order = inv.order;
      fits = inv.fits;
      knows = λ j. assign-all (Knows room stored vals) calls i j c' mine λ ne.
          Knows-set room inner vals p s inv.two inv.size
            (Knows-IsOwned room inner vals (calls i) p (inv.knows i) own) (calls j)
            (λ q e. Knows-unique room inner calls vals i j p q inv own e ne) (inv.knows j);
      unique =
          assign_unique calls i c' inv.unique
            λ j q e f. inv.unique i j p own (f ∙ ap some (at q e));
      slots = λ j lt. elim (ℕ_discrete (p % room) j) [
        | yes here ↦ (p', same ∙ here, slot')
        | no there ↦
            let (q, e, slot) = inv.slots j lt in (q, e, IsSlot-set q (λ h. there (h ∙ e)) slot)
      ];
    }
