-- ===== src/Queue/Mpmc/Drop.antt =====
-- `Drop for Inner` of algors-queue/src/mpmc.rs.
use native.Mathlib.Nat.{mod-lt}
use algors.Prelude.{
  ℕ, zero, suc, ◌+◌, ◌-◌, ◌%◌, ◌^◌, ◌≤◌, ◌<◌, ◌≡◌, ◌≢◌, refl, sym, ap, ◌∙◌, subst, ◌⊎◌, inl, inr,
  List, [], ◌∷◌, none, some, Bool, true, false, arith, ◌==◌, length, get_elem?, drop, set,
  length-set, dec_lt, ℕ_discrete, Yields, yields, Yields-bind, done, ◌>>=◌,
}
use algors.Prelude.Indices.{usize_values, wrapping_sub, wrapping_add}
use algors.Queue.Mpmc.{Slot, Inner, Call, outside, mask, take_slot, drop_loop, drop_inner}
use algors.Queue.Mpmc.Invariant.{same_slot, with_seq, Holds, place, free, ready, owned, IsQueue}
use algors.Queue.Mpmc.Exact.{add-exact, mask-exact, slot_at-exact, take_slot-exact}
use algors.Queue.Mpmc.Slots.{get_elem?-set, Holds-set_other}

module _ {ℓ} {A : Type ℓ} where
  drop-next :
      (n : ℕ) (xs : List A) (x : A) → get_elem? xs n ≡ some x → drop n xs ≡ x ∷ drop (suc n) xs
  drop-next n [] x e = cc
  drop-next zero (y ∷ xs) x e = cc
  drop-next (suc n) (y ∷ xs) x e = drop-next n xs x e

  drop-end : (n : ℕ) (xs : List A) → length xs ≤ n → drop n xs ≡ []
  drop-end zero [] le = refl
  drop-end (suc n) [] le = refl
  drop-end zero (y ∷ xs) le = absurd (omega arith)
  drop-end (suc n) (y ∷ xs) le = drop-end n xs (omega arith)

  -- The slots of the positions from `n` to `t` have their values, and all others have none.
  record IsLeft (room : ℕ) (buf : List (Slot A)) (vals : List A) (n t : ℕ) : Type ℓ where
    size : length buf ≡ room
    window : t ≤ n + room
    kept :
        (q : ℕ)
        → n ≤ q
        → q < t
        → (v : A) × Holds room buf q (suc q) (some v) × (get_elem? vals q ≡ some v)
    cleared :
        (j : ℕ)
        → j < room
        → ((m : ℕ) × (get_elem? buf j ≡ some (with_seq m none)))
          ⊎ ((q : ℕ) × (q % room ≡ j) × (n ≤ q) × (q < t))

  -- No slot has a value.
  abbrev pub IsClear : Inner A → Type ℓ
  IsClear inner =
      (j : ℕ) → j < length inner.buf → (m : ℕ) × (get_elem? inner.buf j ≡ some (with_seq m none))

  -- The dropped values, and a ring with no value.
  abbrev pub IsDropped : List A → List A × Inner A → Type ℓ
  IsDropped vals (dropped, inner') = (dropped ≡ vals) × IsClear inner'

  take-IsLeft :
      (room : ℕ) (buf : List (Slot A)) (vals : List A) (n t : ℕ)
      → 0 < room
      → n < t
      → IsLeft room buf vals n t
      → IsLeft room (set buf (n % room) (with_seq (suc n) none)) vals (suc n) t
  take-IsLeft room buf vals n t pos lt left = record {
    size = length-set buf (n % room) (with_seq (suc n) none) ∙ left.size;
    window = omega (arith, left.window);
    kept = λ q le q_lt.
        let (v, holds, val) = left.kept q (omega arith) q_lt in
        (
          v,
          Holds-set_other room buf n q (suc q) (with_seq (suc n) none) (some v) pos left.size
              (λ e. same_slot room n q e (omega arith) (omega (arith, left.window))) holds,
          val,
        );
    cleared = λ j j_lt.
        let change =
          get_elem?-set buf (n % room) j (with_seq (suc n) none)
            (rw left.size (mod-lt n {m = room} pos)) in
        elim (ℕ_discrete (n % room) j) [
          | yes here ↦
              let test : (n % room == j) ≡ true = ground arith in inl (suc n, change ∙ rw test)
          | no there ↦
              let test : (n % room == j) ≡ false = ground arith in
              elim (left.cleared j j_lt) [
                | inl (m, e) ↦ inl (m, change ∙ rw test e)
                | inr (q, at, le, q_lt) ↦
                    let ne : n ≢ q = λ e. there (ap (λ k. k % room) e ∙ at) in
                    inr (q, at, omega arith, q_lt)
              ]
        ];
  }

  module _ (checks : Bool) (pow h t : ℕ) (vals : List A) (count : length vals ≡ t)
      (small : t + 2 ^ pow < 2 ^ 63) (pos : 0 < 2 ^ pow) where
    drop_loop-IsDropped :
        (n i : ℕ) (inner : Inner A)
        → h + i + n ≡ t
        → IsLeft (2 ^ pow) inner.buf vals (h + i) t
        → Yields (IsDropped (drop (h + i) vals)) (drop_loop checks n i h inner)
    unfolding drop_loop wrapping_add
    drop_loop-IsDropped zero i inner end left = yields {a = ([], inner)} (
      sym (drop-end (h + i) vals (omega arith)),
      λ j lt. elim (left.cleared j (omega (arith, left.size))) [
        | inl clear ↦ clear
        | inr (q, at, le, q_lt) ↦ absurd (omega arith)
      ],
    )
    drop_loop-IsDropped (suc n) i inner end left =
        let (v, holds, val) = left.kept (h + i) (omega arith) (omega arith) in
        let exact : (h + i) % usize_values ≡ h + i = omega arith in
        let at = mask-exact pow inner (h + i) left.size in
        let next : h + i + 1 ≡ suc (h + i) = omega arith in
        let test : (suc (h + i) == suc (h + i)) ≡ true = ground arith in
        let further : h + (i + 1) ≡ suc (h + i) = omega arith in
        let rest =
          drop_loop-IsDropped n (i + 1)
            (record inner { buf = set inner.buf ((h + i) % 2 ^ pow) (with_seq (suc (h + i)) none) })
            (omega arith)
            (rw further (take-IsLeft (2 ^ pow) inner.buf vals (h + i) t pos (omega arith) left)) in
        let taken : Yields (IsDropped (drop (h + i) vals)) (
            take_slot inner (mask inner (h + i)) >>= λ (v, inner').
            drop_loop checks n (i + 1) h inner' >>= λ (vs, inner''). done (v ∷ vs, inner'')) =
          rw (take_slot-exact (2 ^ pow) inner (h + i) (mask inner (h + i)) (suc (h + i)) v at holds)
            (Yields-bind rest λ (dropped, inner') (same, clear).
              yields {a = (v ∷ dropped, inner')} (
                ap (◌∷◌ v) (same ∙ ap (λ k. drop k vals) further)
                    ∙ sym (drop-next (h + i) vals v val),
                clear,
              )) in
        rw
          (
            exact,
            slot_at-exact (2 ^ pow) inner (h + i) (mask inner (h + i)) (suc (h + i)) (some v) at
                holds,
            add-exact checks (h + i) 1 (omega arith),
            next,
          )
          (subst
            (λ b. Yields (IsDropped (drop (h + i) vals)) (elim b [
              | true ↦ take_slot inner (mask inner ((h + i) % usize_values)) >>= λ (v, inner').
                  drop_loop checks n (i + 1) h inner' >>= λ (vs, inner''). done (v ∷ vs, inner'')
              | false ↦ drop_loop checks n (i + 1) h inner
            ]))
            (sym test) (rw exact taken))

  -- When no thread is in a call any more, every slot of a position between the head and the tail has its value.
  quiet-IsLeft :
      (room : ℕ) (inner : Inner A) (calls : ℕ → Call A) (vals : List A)
      → IsQueue room inner calls vals
      → ((i : ℕ) → calls i ≡ outside)
      → IsLeft room inner.buf vals inner.head inner.tail
  quiet-IsLeft room inner calls vals inv quiet = record {
    size = inv.size;
    window = inv.fits;
    kept = λ q le lt.
        let (p, e, slot) = inv.slots (q % room) (mod-lt q {m = room} (omega (arith, inv.two))) in
        elim slot [
          | free holds ge p_lt ↦ absurd (same_slot room q p (sym e) (omega arith) (omega arith))
          | ready v holds val ge p_lt ↦
              let same : p ≡ q = elim (dec_lt p q) [
                | yes below ↦ absurd (same_slot room p q e below (omega (arith, inv.fits)))
                | no nb ↦ elim (dec_lt q p) [
                  | yes above ↦ absurd (same_slot room q p (sym e) above (omega (arith, inv.fits)))
                  | no na ↦ omega arith
                ]
              ] in
              (
                v,
                subst (λ k. Holds room inner.buf k (suc k) (some v)) same holds,
                subst (λ k. get_elem? vals k ≡ some v) same val,
              )
          | owned j f ↦ let clash : none ≡ some p = sym (ap place (quiet j)) ∙ f in cc
        ];
    cleared = λ j lt.
        let (p, e, slot) = inv.slots j lt in
        elim slot [
          | free holds ge p_lt ↦ inl (p, ap (λ k. get_elem? inner.buf k) (sym e) ∙ holds)
          | ready v holds val ge p_lt ↦ inr (p, e, ge, p_lt)
          | owned i f ↦ let clash : none ≡ some p = sym (ap place (quiet i)) ∙ f in cc
        ];
  }

  -- On a ring of two slots or more, when no thread is in a call any more, and fewer than 2 ^ 63 - 2 ^ pow values
  -- were accepted, the drop of the ring drops the accepted values that no consumer has claimed, each once and in their order, reads
  -- no slot without a value, and leaves no slot with one.
  pub drop_inner-IsDropped :
      (checks : Bool) (pow : ℕ) (inner : Inner A) (calls : ℕ → Call A) (vals : List A)
      → IsQueue (2 ^ pow) inner calls vals
      → ((i : ℕ) → calls i ≡ outside)
      → length vals + 2 ^ pow < 2 ^ 63
      → Yields (IsDropped (drop inner.head vals)) (drop_inner checks inner)
  unfolding drop_inner wrapping_sub
  drop_inner-IsDropped checks pow inner calls vals inv quiet small =
      let left : (inner.tail + usize_values - inner.head) % usize_values ≡ inner.tail - inner.head =
        omega (arith, inv.order, inv.count) in
      let first : inner.head + 0 ≡ inner.head = omega arith in
      rw left (
        subst
          (λ k.
            Yields (IsDropped (drop k vals))
              (drop_loop checks (inner.tail - inner.head) 0 inner.head inner))
          first
          (drop_loop-IsDropped checks pow inner.head inner.tail vals inv.count
            (omega (arith, inv.count)) (omega (arith, inv.two)) (inner.tail - inner.head) 0 inner
            (omega (arith, inv.order))
            (rw first (quiet-IsLeft (2 ^ pow) inner calls vals inv quiet))))
