-- ===== src/Queue/Spsc/Drop.antt =====
-- `Drop for Inner` of algors-queue/src/spsc.rs.
use native.Mathlib.Nat.{mod-lt, div-add-mod, add-mod-mod}
use algors.Prelude.{
  ℕ, zero, suc, ◌+◌, ◌-◌, ◌*◌, ◌/◌, ◌%◌, ◌^◌, ◌≤◌, ◌<◌, ◌≡◌, refl, ap, ◌∙◌, subst, List, [], ◌∷◌,
  ◌++◌, Option, none, some, arith, false, ◌==◌, if◌then◌else◌, length, get_or, set, dec_lt, Yields,
  yields, Yields-bind,
}
use algors.Prelude.Bits.{pow-pos}
use algors.Prelude.Indices.{
  usize_values, wrapping_sub, wrapping_add, wrapping_sub-exact, wrapping_add-exact,
  remainder_unique,
}
use algors.Queue.Spsc.{Inner, System, push_idle, pop_idle, mask, drop_loop, drop_inner}
use algors.Queue.Spsc.Ring.{IsRing, set-slot, get_or-beyond}
use algors.Queue.Spsc.Invariant.{filled, front, pending, IsQueue, mask-exact, pow-lt}
use mathlib.Core.List.{append-nil}
use algors.Queue.Spsc.Pop.{take_slot-exact}

-- Every slot is some number of steps from the head.
slot-reached : (room h j : ℕ) → j < room → (i : ℕ) × (i < room) × ((h + i) % room ≡ j)
slot-reached room h j lt =
    let i = room - h % room + j in
    let below = mod-lt h {m = room} (omega arith) in
    let whole : h + i ≡ room * (h / room + 1) + j = grind (arith, div-add-mod h room) in
    (
      i % room,
      mod-lt i {m = room} (omega arith),
      add-mod-mod h i room ∙ remainder_unique (h + i) room (h / room + 1) j whole lt,
    )

module _ {ℓ} {A : Type ℓ} where
  -- The slots after `n` rounds of the loop.
  abbrev emptied : ℕ → List A → List (Option A)
  emptied zero q = filled q
  emptied (suc n) q = none ∷ emptied n q

  emptied-here : (n : ℕ) (v : A) (q : List A) → get_or (emptied n (v ∷ q)) n none ≡ some v
  emptied-here zero v q = refl
  emptied-here (suc n) v q = emptied-here n v q

  emptied-next :
      (n : ℕ) (v : A) (q : List A) (i : ℕ)
      → get_or (emptied (suc n) q) i none
        ≡ (if n == i then none else get_or (emptied n (v ∷ q)) i none)
  emptied-next zero v q zero = refl
  emptied-next zero v q (suc i) = let other : (0 == suc i) ≡ false = ground arith in rw other refl
  emptied-next (suc n) v q zero = let other : (suc n == 0) ≡ false = ground arith in rw other refl
  emptied-next (suc n) v q (suc i) =
      let same : (suc n == suc i) ≡ (n == i) = ground arith in rw same (emptied-next n v q i)

  emptied-none : (n i : ℕ) → get_or (emptied n []) i none ≡ none
  emptied-none zero i = refl
  emptied-none (suc n) zero = refl
  emptied-none (suc n) (suc i) = emptied-none n i

  all-none :
      (room : ℕ) (buf : List (Option A)) (h n : ℕ)
      → IsRing room buf h (emptied n [])
      → (j : ℕ) → get_or buf j none ≡ none
  all-none room buf h n ring j = elim (dec_lt j room) [
    | yes lt ↦
        let (i, i_lt, at) = slot-reached room h j lt in
        subst (λ k. get_or buf k none ≡ none) at (ring.slots i i_lt ∙ emptied-none n i)
    | no ge ↦ get_or-beyond buf j none (omega (arith, ring.size))
  ]

  -- The values that are dropped, and a ring with no value.
  abbrev pub Drops : List A → List A × Inner A → Type ℓ
  Drops q (vals, inner') = (vals ≡ q) × ((j : ℕ) → get_or inner'.buf j none ≡ none)

  drop_loop-Drops :
      (pow : ℕ)
      → pow < 64
      → (q : List A) (i x h : ℕ) (inner : Inner A) → x ≡ h % usize_values
      → i + length q ≤ 2 ^ pow
      → IsRing (2 ^ pow) inner.buf h (emptied i q)
      → Yields (Drops q) (drop_loop (length q) i x inner)
  unfolding drop_loop
  drop_loop-Drops pow small [] i x h inner at fits ring =
      yields {a = ([], inner)} (refl, all-none (2 ^ pow) inner.buf h i ring)
  drop_loop-Drops pow small (v ∷ q) i x h inner at fits ring =
      let idx : mask inner (wrapping_add x i) ≡ (h + i) % 2 ^ pow =
        mask-exact pow small inner (wrapping_add x i) (h + i) ring.size (
          ap (λ k. wrapping_add k i) at
          ∙ wrapping_add-exact h i (omega (arith, pow-lt pow small))) in
      let inside : (h + i) % 2 ^ pow < length inner.buf =
        rw ring.size (mod-lt (h + i) {m = 2 ^ pow} (pow-pos pow)) in
      let holds : get_or inner.buf ((h + i) % 2 ^ pow) none ≡ some v =
        ring.slots i (omega arith) ∙ emptied-here i v q in
      let ring' =
        set-slot (2 ^ pow) inner.buf h (emptied i (v ∷ q)) (emptied (suc i) q) i none (omega arith)
          (emptied-next i v q) ring in
      let next : i + 1 ≡ suc i = omega arith in
      rw
        (
          take_slot-exact inner (mask inner (wrapping_add x i)) ((h + i) % 2 ^ pow) v idx inside
              holds,
          next,
        )
        (Yields-bind
          (drop_loop-Drops pow small q (suc i) x h
            (record inner { buf = set inner.buf ((h + i) % 2 ^ pow) none }) at (omega arith) ring')
          λ (vals, inner') (same, clear). yields {a = (v ∷ vals, inner')} (ap (◌∷◌ v) same, clear))

  -- When neither end is in a call any more, the drop of the ring drops the values in the queue `q`, each
  -- once and in their order, reads no slot without a value, and leaves no slot with one.
  pub drop_inner-Drops :
      (pow : ℕ) (s : System A) (q : List A)
      → IsQueue pow s q
      → s.pushing ≡ push_idle
      → s.popping ≡ pop_idle
      → Yields (Drops q) (drop_inner s.inner)
  unfolding drop_inner
  drop_inner-Drops pow s q inv no_push no_pop =
      let left : wrapping_sub s.inner.tail s.inner.head ≡ length q =
        rw (inv.tail_at, inv.head_at, inv.count)
          (wrapping_sub-exact inv.h (length q) (omega (arith, inv.fits, pow-lt pow inv.small))) in
      let cells : front s.popping q ++ pending s.pushing ≡ filled q =
        rw (no_push, no_pop) (append-nil (filled q)) in
      rw left (
        drop_loop-Drops pow inv.small q 0 s.inner.head inv.h s.inner inv.head_at
          (omega (arith, inv.fits)) (subst (IsRing (2 ^ pow) s.inner.buf inv.h) cells inv.ring))
