-- ===== src/Queue/Mpmc/Alone/Pop.antt =====
-- `try_pop` of algors-queue/src/mpmc.rs, alone.
use native.Mathlib.Nat.{mod-lt, add-mod_right}
use algors.Prelude.{
  ℕ, suc, ◌+◌, ◌-◌, ◌%◌, ◌^◌, ◌≤◌, ◌<◌, ◌≡◌, ◌⊎◌, refl, sym, ap, ◌∙◌, subst, inl, inr, List, Option,
  none, some, Bool, true, false, arith, ltb, ◌==◌, Bool-cases, length, length-set, get_elem?, set,
  Yields, yields, ℕ_discrete,
}
use algors.Queue.Mpmc.{
  Inner, Call, outside, pop_read, pop_release, Event, reserved, popped, found_empty, assign, mask,
  len, advance, claim_head, finish, try_pop,
}
use algors.Queue.Mpmc.Invariant.{
  same_slot, with_seq, Holds, Holds-same, place, free, ready, owned, IsQueue, filling, emptying,
  Knows-IsOwned,
}
use algors.Queue.Mpmc.Exact.{
  add-exact, mask-exact, slot_at-exact, store_seq-exact, take_slot-exact, judge_pop-exact,
}
use algors.Queue.Mpmc.Slots.{assign_self, Holds-set, store-IsQueue}
use algors.Queue.Mpmc.Claims.{head-ready}
use algors.Queue.Mpmc.Claims.Head.{head-IsQueue}
use algors.Queue.Mpmc.Seen.{IsEmpty, pop-Seen}
use algors.Queue.Mpmc.Alone.{assign-assign, assign_back}

module _ {ℓ} {A : Type ℓ} where
  module _ (pow : ℕ) (inner : Inner A) (calls : ℕ → Call A) (vals : List A)
      (inv : IsQueue (2 ^ pow) inner calls vals) where
    -- A position from the head on, of the slot of the head, is the head.
    at-head :
        (q : ℕ)
        → q % 2 ^ pow ≡ inner.head % 2 ^ pow
        → inner.head ≤ q
        → q < inner.head + 2 ^ pow
        → q ≡ inner.head
    at-head q e ge lt = elim (ℕ_discrete q inner.head) [
      | yes at ↦ at
      | no past ↦ absurd (same_slot (2 ^ pow) inner.head q (sym e) (omega arith) lt)
    ]

    -- The slot of the head never has a number above that of a published value.
    head-seq-le :
        (seq : ℕ) (x : Option A) → Holds (2 ^ pow) inner.buf inner.head seq x → seq ≤ suc inner.head
    head-seq-le seq x holds =
        let h = inner.head in
        let (q, e, slot) =
          inv.slots (h % 2 ^ pow) (mod-lt h {m = 2 ^ pow} (omega (arith, inv.two))) in
        elim slot [
          | free here ge lt ↦
              let (eq, same) = Holds-same (2 ^ pow) inner.buf q h q seq none x e here holds in
              let at = at-head q e (omega (arith, inv.order)) lt in omega arith
          | ready v here val ge lt ↦
              let (eq, same) =
                Holds-same (2 ^ pow) inner.buf q h (suc q) seq (some v) x e here holds in
              let at = at-head q e ge (omega (arith, inv.fits)) in omega arith
          | owned j f ↦ elim (Knows-IsOwned (2 ^ pow) inner vals (calls j) q (inv.knows j) f) [
            | filling y here ge lt ↦
                let (eq, same) = Holds-same (2 ^ pow) inner.buf q h q seq y x e here holds in
                let at = at-head q e ge (omega (arith, inv.fits)) in omega arith
            | emptying y here lt le ↦
                let (eq, same) = Holds-same (2 ^ pow) inner.buf q h (suc q) seq y x e here holds in
                omega arith
          ]
        ]

  claim_head-exact :
      (inner : Inner A)
      → claim_head false 0 inner inner.head (suc inner.head)
        ≡ (reserved, record inner { head = suc inner.head }, pop_read inner.head)
  unfolding claim_head
  claim_head-exact inner = let test : (inner.head == inner.head) ≡ true = ground arith in rw test

  -- What `try_pop` comes to, from a ring that has accepted `vals`.
  abbrev pub PopsAlone : ℕ → Inner A → (ℕ → Call A) → List A → Event A × Inner A → Type ℓ
  PopsAlone pow inner calls vals (e, inner') =
      ((v : A) × (e ≡ popped inner.head v)
        × (get_elem? vals inner.head ≡ some v)
        × (inner'.head ≡ suc inner.head)
        × IsQueue (2 ^ pow) inner' calls vals)
      ⊎ ((e ≡ found_empty) × (inner' ≡ inner) × IsEmpty inner.head inner.tail calls)

  module _ (checks : Bool) (pow : ℕ) (inner : Inner A) (calls : ℕ → Call A) (vals : List A) (i : ℕ)
      (inv : IsQueue (2 ^ pow) inner calls vals) (is : calls i ≡ outside)
      (small : length vals + 2 ^ pow < 2 ^ 63) where
    abbrev h : ℕ
    h = inner.head

    abbrev reserved_inner : Inner A
    reserved_inner = record inner { head = suc h }

    abbrev read_out : Inner A
    read_out = record reserved_inner { buf = set inner.buf (h % 2 ^ pow) (with_seq (suc h) none) }

    abbrev released : Inner A
    released = record read_out {
      buf = set read_out.buf (h % 2 ^ pow) (with_seq (h + 2 ^ pow) none);
    }

    size-read_out : length read_out.buf ≡ 2 ^ pow
    size-read_out = length-set inner.buf (h % 2 ^ pow) (with_seq (suc h) none) ∙ inv.size

    in_slot : Holds (2 ^ pow) read_out.buf h (suc h) none
    in_slot = Holds-set (2 ^ pow) inner.buf h (suc h) none (omega (arith, inv.two)) inv.size

    -- The claim, the read and the release, one after the other.
    released-IsQueue :
        (v : A)
        → Holds (2 ^ pow) inner.buf h (suc h) (some v)
        → get_elem? vals h ≡ some v
        → IsQueue (2 ^ pow) released calls vals
    released-IsQueue v here val =
        let claims =
          head-IsQueue (2 ^ pow) inner calls vals inv i h (some v) refl here (ap place is) in
        let at_read = assign calls i (pop_read h) in
        let at_release = assign at_read i (pop_release h v) in
        let around : (h + 2 ^ pow) % 2 ^ pow ≡ h % 2 ^ pow = add-mod_right h (2 ^ pow) in
        let held : Holds (2 ^ pow) released.buf (h + 2 ^ pow) (h + 2 ^ pow) none = rw around (
          Holds-set (2 ^ pow) read_out.buf h (h + 2 ^ pow) none (omega (arith, inv.two))
            size-read_out) in
        let reads =
          store-IsQueue (2 ^ pow) reserved_inner at_read vals claims i h
            (ap place (assign_self calls i (pop_read h))) (with_seq (suc h) none) (pop_release h v)
            h refl (omega arith, omega (arith, inv.fits), in_slot, val) (λ q e. cc)
            (owned i (ap place (assign_self at_read i (pop_release h v)))) in
        let releases =
          store-IsQueue (2 ^ pow) read_out at_release vals reads i h
            (ap place (assign_self at_read i (pop_release h v))) (with_seq (h + 2 ^ pow) none)
            outside (h + 2 ^ pow) around tt (λ q e. cc)
            (free held (omega (arith, inv.fits)) (omega (arith, inv.two))) in
        subst (λ cs. IsQueue (2 ^ pow) released cs vals)
          (assign-assign at_read i (pop_release h v) outside
            ∙ assign-assign calls i (pop_read h) outside
            ∙ assign_back calls i outside is)
          releases

    -- A call of `try_pop` that no piece of another call comes between, with no spurious failure and no late
    -- load, on a ring of two slots or more that accepted fewer than 2 ^ 63 - 2 ^ pow values, ends after five
    -- pieces at most: with the first unclaimed value; or with `None`, the ring as it was, and all values
    -- claimed or the next one not published.
    pub try_pop-PopsAlone : Yields (PopsAlone pow inner calls vals) (try_pop checks inner)
    unfolding try_pop finish advance len
    try_pop-PopsAlone =
        let (seq, x, holds, bound, empty) =
          pop-Seen (2 ^ pow) inner calls vals inv h (omega arith) in
        let le = head-seq-le pow inner calls vals inv seq x holds in
        let first : h - 0 ≡ h = omega arith in
        let next : h + 1 ≡ suc h = omega arith in
        let at = mask-exact pow inner h inv.size in
        let looks = slot_at-exact (2 ^ pow) inner h (mask inner h) seq x at holds in
        let steps = add-exact checks h 1 (omega (arith, inv.count, inv.order)) in
        let judges =
          judge_pop-exact inner h (suc h) seq (omega (arith, inv.count))
            (omega (arith, inv.count, inv.order, inv.two)) in
        elim (Bool-cases (seq == suc h)) [
          | inl same ↦
              let eq : seq ≡ suc h = ground arith in
              let (lt, (v, here, val)) =
                head-ready (2 ^ pow) inner calls vals inv h x refl
                  (subst (λ n. Holds (2 ^ pow) inner.buf h n x) eq holds) in
              rw
                (
                  first,
                  looks,
                  steps,
                  next,
                  judges,
                  same,
                  steps,
                  next,
                  claim_head-exact inner,
                  take_slot-exact (2 ^ pow) reserved_inner h (mask reserved_inner h) (suc h) v
                      (mask-exact pow reserved_inner h inv.size) here,
                  size-read_out,
                  add-exact checks h (2 ^ pow) (omega (arith, inv.count, inv.order)),
                  store_seq-exact (2 ^ pow) read_out h (mask read_out h) (suc h) none
                      (mask-exact pow read_out h size-read_out) in_slot (h + 2 ^ pow),
                )
                (yields {a = (popped h v, released)}
                  (inl (v, refl, val, refl, released-IsQueue v here val)))
          | inr other ↦
              let below : ltb seq (suc h) ≡ true = ground arith in
              rw (first, looks, steps, next, judges, other, below)
                (yields {a = (found_empty, inner)} (inr (refl, refl, empty (ground arith))))
        ]
