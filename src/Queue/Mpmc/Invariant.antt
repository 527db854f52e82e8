-- ===== src/Queue/Mpmc/Invariant.antt =====
-- What holds of the ring and of all calls of algors-queue/src/mpmc.rs at any time, while the counters stay
-- below half of the values of a word: each slot is free for the next value, or holds one that was
-- published, or belongs to one call.
use algors.Prelude.{
  ℕ, suc, ◌+◌, ◌-◌, ◌%◌, ◌≤◌, ◌<◌, ◌≡◌, sym, ap, ◌∙◌, subst, List, Option, none, some, arith,
  dec_lt, length, get_elem?,
}
use algors.Prelude.Indices.{slot-ne}
use algors.Queue.Mpmc.{
  Slot, Inner, Call, outside, push_load, push_look, push_claim, push_write, push_publish, pop_load,
  pop_look, pop_claim, pop_read, pop_release,
}

-- Two positions of one slot are a whole number of rounds apart.
pub same_slot : (room p q : ℕ) → p % room ≡ q % room → p < q → q < p + room → ⊥
same_slot room p q e lt near =
    let here : p + 0 ≡ p = omega arith in
    let there : p + (0 + (q - p)) ≡ q = omega arith in
    slot-ne room p 0 (q - p) (omega arith) (omega arith)
      (ap (λ k. k % room) here ∙ e ∙ ap (λ k. k % room) (sym there))

pub same_slot_near : (room p q : ℕ) → 2 ≤ room → p % room ≡ q % room → p ≤ q + 1 → q ≤ p + 1 → p ≡ q
same_slot_near room p q two e le ge = elim (dec_lt p q) [
  | yes lt ↦ absurd (same_slot room p q e lt (omega arith))
  | no nlt ↦ elim (dec_lt q p) [
    | yes gt ↦ absurd (same_slot room q p (sym e) gt (omega arith))
    | no ngt ↦ omega arith
  ]
]

pub same_slot_next : (room p q : ℕ) → p % room ≡ q % room → p < q → q ≤ p + room → q ≡ p + room
same_slot_next room p q e lt le = elim (dec_lt q (p + room)) [
  | yes below ↦ absurd (same_slot room p q e lt below)
  | no above ↦ omega arith
]

module _ {ℓ} {A : Type ℓ} where
  abbrev pub with_seq : ℕ → Option A → Slot A
  with_seq n x = record { seq = n; value = x }

  -- What the slot of position `p` is.
  abbrev pub Holds : ℕ → List (Slot A) → ℕ → ℕ → Option A → Type ℓ
  Holds room buf p n x = get_elem? buf (p % room) ≡ some (with_seq n x)

  pub Holds-same :
      (room : ℕ) (buf : List (Slot A)) (p q m n : ℕ) (x y : Option A)
      → p % room ≡ q % room
      → Holds room buf p m x
      → Holds room buf q n y
      → (m ≡ n) × (x ≡ y)
  Holds-same room buf p q m n x y e h k =
      let both : some (with_seq m x) ≡ some (with_seq n y) =
        sym h ∙ ap (λ j. get_elem? buf j) e ∙ k in
      (cc, cc)

  -- What a call knows of the ring and of the values by their positions.
  abbrev pub Knows : ℕ → Inner A → List A → Call A → Type ℓ
  Knows room inner vals outside = Unit {ℓ}
  Knows room inner vals (push_load v) = Unit {ℓ}
  Knows room inner vals (push_look v p) = (p ≤ inner.tail) × Unit {ℓ}
  Knows room inner vals (push_claim v p) =
      (p ≤ inner.tail) × (p ≡ inner.tail → (x : Option A) × Holds room inner.buf p p x)
  Knows room inner vals (push_write v p) =
      (inner.head ≤ p)
      × (p < inner.tail)
      × Holds room inner.buf p p none
      × (get_elem? vals p ≡ some v)
  Knows room inner vals (push_publish v p) =
      (inner.head ≤ p)
      × (p < inner.tail)
      × Holds room inner.buf p p (some v)
      × (get_elem? vals p ≡ some v)
  Knows room inner vals pop_load = Unit {ℓ}
  Knows room inner vals (pop_look p) = (p ≤ inner.head) × Unit {ℓ}
  Knows room inner vals (pop_claim p) =
      (p ≤ inner.head) × (p ≡ inner.head → (x : Option A) × Holds room inner.buf p (suc p) x)
  Knows room inner vals (pop_read p) =
      (p < inner.head)
      × (inner.tail ≤ p + room)
      × ((v : A) × Holds room inner.buf p (suc p) (some v) × (get_elem? vals p ≡ some v))
  Knows room inner vals (pop_release p v) =
      (p < inner.head)
      × (inner.tail ≤ p + room)
      × Holds room inner.buf p (suc p) none
      × (get_elem? vals p ≡ some v)

  -- The position whose slot belongs to the call.
  abbrev pub place : Call A → Option ℕ
  place (push_write v p) = some p
  place (push_publish v p) = some p
  place (pop_read p) = some p
  place (pop_release p v) = some p
  place outside = none
  place (push_load v) = none
  place (push_look v p) = none
  place (push_claim v p) = none
  place pop_load = none
  place (pop_look p) = none
  place (pop_claim p) = none

  -- The slot of position `p`: free for its value; with its value, published; or of some call.
  pub data IsSlot (room : ℕ) (inner : Inner A) (calls : ℕ → Call A) (vals : List A) (p : ℕ)
      : Type ℓ where
    free :
        Holds room inner.buf p p none
        → inner.tail ≤ p
        → p < inner.head + room
        → IsSlot room inner calls vals p
    ready :
        (v : A)
        → Holds room inner.buf p (suc p) (some v)
        → get_elem? vals p ≡ some v
        → inner.head ≤ p
        → p < inner.tail
        → IsSlot room inner calls vals p
    owned : (i : ℕ) → place (calls i) ≡ some p → IsSlot room inner calls vals p

  -- The queue has accepted `vals`, and its consumers have claimed the first of them.
  pub record IsQueue (room : ℕ) (inner : Inner A) (calls : ℕ → Call A) (vals : List A)
      : Type ℓ where
    pub two : 2 ≤ room
    pub size : length inner.buf ≡ room
    pub count : length vals ≡ inner.tail
    pub order : inner.head ≤ inner.tail
    pub fits : inner.tail ≤ inner.head + room
    pub knows : (i : ℕ) → Knows room inner vals (calls i)
    pub unique : (i j p : ℕ) → place (calls i) ≡ some p → place (calls j) ≡ some p → i ≡ j
    pub slots : (j : ℕ) → j < room → (p : ℕ) × (p % room ≡ j) × IsSlot room inner calls vals p

  -- What is known of a slot that belongs to a call: it is that of a value to be published, or of one
  -- that is being moved out.
  pub data IsOwned (room : ℕ) (inner : Inner A) (p : ℕ) : Type ℓ where
    filling :
        (x : Option A)
        → Holds room inner.buf p p x
        → inner.head ≤ p
        → p < inner.tail
        → IsOwned room inner p
    emptying :
        (x : Option A)
        → Holds room inner.buf p (suc p) x
        → p < inner.head
        → inner.tail ≤ p + room
        → IsOwned room inner p

  pub Knows-IsOwned :
      (room : ℕ) (inner : Inner A) (vals : List A) (c : Call A) (p : ℕ)
      → Knows room inner vals c
      → place c ≡ some p
      → IsOwned room inner p
  Knows-IsOwned room inner vals outside p k e = cc
  Knows-IsOwned room inner vals (push_load v) p k e = cc
  Knows-IsOwned room inner vals (push_look v q) p k e = cc
  Knows-IsOwned room inner vals (push_claim v q) p k e = cc
  Knows-IsOwned room inner vals (push_write v q) p (le, lt, holds, val) e =
      subst (IsOwned room inner) (cc) (filling none holds le lt)
  Knows-IsOwned room inner vals (push_publish v q) p (le, lt, holds, val) e =
      subst (IsOwned room inner) (cc) (filling (some v) holds le lt)
  Knows-IsOwned room inner vals pop_load p k e = cc
  Knows-IsOwned room inner vals (pop_look q) p k e = cc
  Knows-IsOwned room inner vals (pop_claim q) p k e = cc
  Knows-IsOwned room inner vals (pop_read q) p (lt, le, (v, holds, val)) e =
      subst (IsOwned room inner) (cc) (emptying (some v) holds lt le)
  Knows-IsOwned room inner vals (pop_release q v) p (lt, le, holds, val) e =
      subst (IsOwned room inner) (cc) (emptying none holds lt le)

  -- Two calls that own one slot own it for one position.
  pub IsOwned-same :
      (room : ℕ) (inner : Inner A) (p q : ℕ)
      → 2 ≤ room
      → IsOwned room inner p
      → IsOwned room inner q
      → p % room ≡ q % room
      → p ≡ q
  IsOwned-same room inner p q two (filling x h a b) (filling y k c d) e =
      (Holds-same room inner.buf p q p q x y e h k).0
  IsOwned-same room inner p q two (filling x h a b) (emptying y k c d) e =
      let (seq, same) = Holds-same room inner.buf p q p (suc q) x y e h k in
      same_slot_near room p q two e (omega arith) (omega arith)
  IsOwned-same room inner p q two (emptying x h a b) (filling y k c d) e =
      let (seq, same) = Holds-same room inner.buf p q (suc p) q x y e h k in
      same_slot_near room p q two e (omega arith) (omega arith)
  IsOwned-same room inner p q two (emptying x h a b) (emptying y k c d) e =
      let (seq, same) = Holds-same room inner.buf p q (suc p) (suc q) x y e h k in omega arith
