-- ===== src/Queue/Spsc/Ring.antt =====
-- A ring buffer as algors-queue uses it: what its slots hold, in the order from the head on.
use native.Mathlib.Nat.{add-mod_right, mod-lt}
use algors.Prelude.{
  ℕ, zero, suc, ◌+◌, ◌-◌, ◌%◌, ◌≤◌, ◌<◌, ◌≡◌, ◌≢◌, refl, sym, ap, ◌∙◌, subst, inl, inr, List, [],
  ◌∷◌, ◌++◌, Option, none, some, arith, ◌==◌, false, Bool-cases, dec_lt, if◌then◌else◌, length,
  length-set, get_or, get_or-set, set,
}
use algors.Prelude.Indices.{slot-ne}

pub get_or-beyond {ℓ} :
    {A : Type ℓ} (xs : List A) (i : ℕ) (d : A) → length xs ≤ i → get_or xs i d ≡ d
get_or-beyond [] i d le = refl
get_or-beyond (x ∷ xs) zero d le = absurd (omega arith)
get_or-beyond (x ∷ xs) (suc i) d le = get_or-beyond xs i d (omega arith)

get_or-append_last {ℓ} :
    {A : Type ℓ} (xs : List A) (x : A) (i : ℕ) (d : A)
    → get_or (xs ++ x ∷ []) i d ≡ (if length xs == i then x else get_or xs i d)
get_or-append_last [] x zero d = refl
get_or-append_last [] x (suc i) d = ground arith
get_or-append_last (y ∷ xs) x zero d = ground arith
get_or-append_last (y ∷ xs) x (suc i) d = ground (arith, get_or-append_last xs x i d)

module _ {ℓ} {A : Type ℓ} where
  -- The slots from that of `h` on hold `cells`, and then no value.
  pub record IsRing (room : ℕ) (buf : List (Option A)) (h : ℕ) (cells : List (Option A))
      : Type ℓ where
    pub size : length buf ≡ room
    pub slots : (i : ℕ) → i < room → get_or buf ((h + i) % room) none ≡ get_or cells i none

  module _ (room : ℕ) (buf : List (Option A)) (h : ℕ) where
    slot-lt : (i : ℕ) → 0 < room → (h + i) % room < room
    slot-lt i pos = mod-lt (h + i) {m = room} pos

    -- Two steps from the head that go to one slot are the same.
    slot-eq : (i j : ℕ) → i < room → j < room → ((h + i) % room == (h + j) % room) ≡ (i == j)
    slot-eq i j i_lt j_lt = elim (dec_lt i j) [
      | yes p ↦
          let e : i + (j - i) ≡ j = omega arith in
          let apart =
            subst (λ k. (h + i) % room ≢ (h + k) % room) e
              (slot-ne room h i (j - i) (omega arith) (omega arith)) in
          ground arith
      | no p ↦ elim (dec_lt j i) [
        | yes q ↦
            let e : j + (i - j) ≡ i = omega arith in
            let apart =
              subst (λ k. (h + j) % room ≢ (h + k) % room) e
                (slot-ne room h j (i - j) (omega arith) (omega arith)) in
            ground arith
        | no q ↦ let e : i ≡ j = omega arith in rw e (ground arith)
      ]
    ]

    -- A write to the `n`th slot changes that one.
    pub set-slot :
        (cells cells' : List (Option A)) (n : ℕ) (x : Option A)
        → n < room
        → ((i : ℕ) → get_or cells' i none ≡ (if n == i then x else get_or cells i none))
        → IsRing room buf h cells
        → IsRing room (set buf ((h + n) % room) x) h cells'
    set-slot cells cells' n x lt change ring = record {
      size = length-set buf ((h + n) % room) x ∙ ring.size;
      slots = λ i i_lt.
          get_or-set buf ((h + n) % room) ((h + i) % room) x none
            (rw ring.size (slot-lt n (omega arith)))
          ∙ rw (slot-eq n i lt i_lt, ring.slots i i_lt) (sym (change i));
    }

  -- A value is appended.
  pub write-IsRing :
      (room : ℕ) (buf : List (Option A)) (h : ℕ) (cells : List (Option A)) (v : A)
      → length cells < room
      → IsRing room buf h cells
      → IsRing room (set buf ((h + length cells) % room) (some v)) h (cells ++ some v ∷ [])
  write-IsRing room buf h cells v lt =
      set-slot room buf h cells (cells ++ some v ∷ []) (length cells) (some v) lt
        λ i. get_or-append_last cells (some v) i none

  -- The first value is moved out.
  pub take-IsRing :
      (room : ℕ) (buf : List (Option A)) (h : ℕ) (cells : List (Option A)) (v : A)
      → 0 < room
      → IsRing room buf h (some v ∷ cells)
      → IsRing room (set buf (h % room) none) h (none ∷ cells)
  take-IsRing room buf h cells v pos ring =
      subst (λ k. IsRing room (set buf (k % room) none) h (none ∷ cells)) start
        (set-slot room buf h (some v ∷ cells) (none ∷ cells) 0 none pos change ring)
    where
      start : h + 0 ≡ h
      start = omega arith

      change :
          (i : ℕ)
          → get_or (none ∷ cells) i none ≡ (if 0 == i then none else get_or (some v ∷ cells) i none)
      change zero = refl
      change (suc i) = let other : (0 == suc i) ≡ false = ground arith in rw other

  -- The head goes on past an empty slot.
  pub advance-IsRing :
      (room : ℕ) (buf : List (Option A)) (h : ℕ) (cells : List (Option A))
      → length cells < room
      → IsRing room buf h (none ∷ cells)
      → IsRing room buf (h + 1) cells
  advance-IsRing room buf h cells lt ring = record {
    size = ring.size;
    slots = λ i i_lt. elim (Bool-cases (i + 1 == room)) [
      | inl last ↦
          let around : (h + 1 + i) % room ≡ (h + 0) % room =
            let e : h + 1 + i ≡ h + room = ground arith in
            let f : h + 0 ≡ h = omega arith in rw (e, f) (add-mod_right h room) in
          ap (λ k. get_or buf k none) around
          ∙ ring.slots 0 (omega arith)
          ∙ sym (get_or-beyond cells i none (ground arith))
      | inr more ↦
          let next : h + 1 + i ≡ h + suc i = omega arith in
          ap (λ k. get_or buf (k % room) none) next ∙ ring.slots (suc i) (ground arith)
    ];
  }
