-- ===== src/Queue/Spsc/Pop.antt =====
-- `try_pop` of algors-queue/src/spsc.rs: each piece of it keeps the invariant, and the last one takes the
-- first value off the queue or finds the queue empty.
use native.Mathlib.Nat.{mod-lt}
use algors.Prelude.{
  ℕ, suc, ◌+◌, ◌%◌, ◌^◌, ◌≤◌, ◌<◌, ◌≡◌, ◌⊎◌, refl, sym, ap, subst, inl, inr, List, [], ◌∷◌, ◌++◌,
  none, some, Bool, Bool-cases, arith, ◌==◌, length, length-append, get_or, get_elem?-get_or, set,
  done, YieldsOr, ran, YieldsOr-bind,
}
use algors.Prelude.Bits.{pow-pos}
use algors.Prelude.Indices.{usize_values}
use algors.Queue.Spsc.{
  Inner, Pushing, push_idle, push_reload, push_write, push_publish, Popping, pop_idle, pop_reload,
  pop_read, pop_release, System, silent, popped, found_empty, mask, is_drained, take_slot,
  begin_pop, advance_pop,
}
use algors.Queue.Spsc.Ring.{IsRing, take-IsRing, advance-IsRing}
use algors.Queue.Spsc.Invariant.{
  filled, front, pending, PushAt, IsQueue, length-filled, is_drained-exact, mask-exact,
  with_popping,
}
use algors.Queue.Spsc.Push.{Explained, increment-exact}

module _ {ℓ} {A : Type ℓ} where
  -- A slot that holds a value is read and left empty.
  pub take_slot-exact :
      (inner : Inner A) (idx j : ℕ) (v : A)
      → idx ≡ j
      → j < length inner.buf
      → get_or inner.buf j none ≡ some v
      → take_slot inner idx ≡ done (v, record inner { buf = set inner.buf j none })
  unfolding take_slot
  take_slot-exact inner idx j v e lt holds =
      subst (λ i. take_slot inner i ≡ done (v, record inner { buf = set inner.buf j none })) (sym e)
        (rw (take_slot, get_elem?-get_or inner.buf j none lt, holds))

  -- The queue is empty exactly if the counts are equal.
  empty-queue : (q : List A) → length q ≡ 0 → q ≡ []
  empty-queue [] e = refl
  empty-queue (x ∷ q) e = absurd (omega arith)

  first-of : (q : List A) → 0 < length q → (v : A) × (q' : List A) × (q ≡ v ∷ q')
  first-of [] pos = absurd (omega arith)
  first-of (x ∷ q) pos = (x, q, refl)

  -- A written slot is among those that the head leaves free.
  length-pending :
      (room seen t : ℕ) (p : Pushing A)
      → PushAt room seen t p
      → (length (pending p) ≡ 0) ⊎ ((length (pending p) ≡ 1) × (t < seen + room))
  length-pending room seen t push_idle h = inl refl
  length-pending room seen t (push_reload v n) h = inl refl
  length-pending room seen t (push_write v n) h = inl refl
  length-pending room seen t (push_publish v n) h = inr (refl, h.1)

  pub begin_pop-IsQueue :
      (pow : ℕ) (s : System A) (q : List A)
      → IsQueue pow s q
      → s.popping ≡ pop_idle
      → IsQueue pow (begin_pop s) q
  unfolding begin_pop
  begin_pop-IsQueue pow s q inv idle =
      let (cached, le, le') = inv.tail_seen in
      let test : is_drained s.inner.head s.tail_cache ≡ (inv.tc == inv.h) =
        is_drained-exact pow inv.small s.inner.head s.tail_cache inv.h inv.tc inv.head_at cached le
          (omega (arith, inv.count, inv.fits)) in
      let same : filled q ≡ front s.popping q = sym (ap (λ p. front p q) idle) in
      elim (Bool-cases (inv.tc == inv.h)) [
        | inl empty ↦
            rw (test, empty)
              (with_popping pow s q inv s.tail_cache inv.tc (pop_reload s.inner.head) same
                inv.tail_seen inv.head_at tt)
        | inr some_left ↦
            rw (test, some_left)
              (with_popping pow s q inv s.tail_cache inv.tc (pop_read s.inner.head) same
                inv.tail_seen (inv.head_at, ground arith) tt)
      ]

  module _ (checks : Bool) (pow : ℕ) (inner : Inner A) (hc tc : ℕ) (p : Pushing A)
      (q : List A) where
    -- The system with the consumer at `c`.
    abbrev at : Popping A → System A
    at c = record { inner = inner; head_cache = hc; tail_cache = tc; pushing = p; popping = c }

    advance-reload :
        (n : ℕ)
        → IsQueue pow (at (pop_reload n)) q
        → YieldsOr checks (Explained pow q) (advance_pop checks (at (pop_reload n)))
    unfolding advance_pop
    advance-reload n inv =
        let test : is_drained n inner.tail ≡ (inv.t == inv.h) =
          is_drained-exact pow inv.small n inner.tail inv.h inv.t inv.pop_at inv.tail_at
            (omega (arith, inv.count)) (omega (arith, inv.count, inv.fits)) in
        let seen : (inner.tail ≡ inv.t % usize_values) × (inv.h ≤ inv.t) × (inv.t ≤ inv.t) =
          (inv.tail_at, omega (arith, inv.count), omega arith) in
        elim (Bool-cases (inv.t == inv.h)) [
          | inl empty ↦
              let nothing : q ≡ [] = empty-queue q (ground (arith, inv.count)) in
              rw (test, empty)
                (ran {a = (found_empty, record (at pop_idle) { tail_cache = inner.tail })} (
                  q,
                  with_popping pow (at (pop_reload n)) q inv inner.tail inv.t pop_idle refl seen tt
                      tt,
                  (nothing, nothing),
                ))
          | inr some_left ↦
              rw (test, some_left)
                (ran {a = (silent, record (at (pop_read n)) { tail_cache = inner.tail })} (
                  q,
                  with_popping pow (at (pop_reload n)) q inv inner.tail inv.t (pop_read n) refl seen
                      (inv.pop_at, ground (arith, inv.count)) tt,
                  refl,
                ))
        ]

    advance-read :
        (n : ℕ)
        → IsQueue pow (at (pop_read n)) q
        → YieldsOr checks (Explained pow q) (advance_pop checks (at (pop_read n)))
    unfolding advance_pop
    advance-read n inv =
        let (v, q', e) = first-of q (omega (arith, inv.count, inv.pop_at, inv.tail_seen)) in
        let ring : IsRing (2 ^ pow) inner.buf inv.h (some v ∷ filled q' ++ pending p) =
          rw e at inv.ring in
        let idx : mask inner n ≡ inv.h % 2 ^ pow =
          mask-exact pow inv.small inner n inv.h inv.ring.size inv.pop_at.0 in
        let inside : inv.h % 2 ^ pow < length inner.buf =
          rw inv.ring.size (mod-lt inv.h {m = 2 ^ pow} (pow-pos pow)) in
        let start : inv.h + 0 ≡ inv.h = omega arith in
        let holds : get_or inner.buf (inv.h % 2 ^ pow) none ≡ some v =
          rw start at (ring.slots 0 (pow-pos pow)) in
        let taken =
          take-IsRing (2 ^ pow) inner.buf inv.h (filled q' ++ pending p) v (pow-pos pow) ring in
        rw (take_slot-exact inner (mask inner n) (inv.h % 2 ^ pow) v idx inside holds) (
          ran
            {a = (
              silent,
              record (at (pop_release n v)) {
                inner = record inner { buf = set inner.buf (inv.h % 2 ^ pow) none };
              },
            )}
            (
              q,
              record {
                h = inv.h;
                t = inv.t;
                hc = inv.hc;
                tc = inv.tc;
                small = inv.small;
                count = inv.count;
                fits = inv.fits;
                head_at = inv.head_at;
                tail_at = inv.tail_at;
                ring = rw e taken;
                head_seen = inv.head_seen;
                tail_seen = inv.tail_seen;
                push_at = inv.push_at;
                pop_at = inv.pop_at;
                taken = (q', e);
              },
              refl,
            ))

    advance-release :
        (v : A) (n : ℕ)
        → IsQueue pow (at (pop_release n v)) q
        → YieldsOr checks (Explained pow q) (advance_pop checks (at (pop_release n v)))
    unfolding advance_pop
    advance-release v n inv =
        let (q', e) = inv.taken in
        let size : length q ≡ suc (length q') = ap length e in
        let ring : IsRing (2 ^ pow) inner.buf inv.h (none ∷ filled q' ++ pending p) =
          rw e at inv.ring in
        YieldsOr-bind (rw inv.pop_at.0 (increment-exact checks inv.h)) λ h' exact.
          ran {a = (popped v, record (at pop_idle) { inner = record inner { head = h' } })} (
            q',
            record {
              h = inv.h + 1;
              t = inv.t;
              hc = inv.hc;
              tc = inv.tc;
              small = inv.small;
              count = omega (arith, inv.count, size);
              fits = omega (arith, inv.fits, size);
              head_at = exact;
              tail_at = inv.tail_at;
              ring =
                  advance-IsRing (2 ^ pow) inner.buf inv.h (filled q' ++ pending p)
                    (omega (
                      arith,
                      length-append (filled q') (pending p),
                      length-filled q',
                      size,
                      inv.fits,
                      inv.head_seen,
                      inv.count,
                      length-pending (2 ^ pow) inv.hc inv.t p inv.push_at,
                    ))
                    ring;
              head_seen = (inv.head_seen.0, omega (arith, inv.head_seen), inv.head_seen.2);
              tail_seen = (inv.tail_seen.0, omega (arith, inv.pop_at), inv.tail_seen.2);
              push_at = inv.push_at;
              pop_at = tt;
              taken = tt;
            },
            e,
          )

    advance_at :
        (c : Popping A)
        → IsQueue pow (at c) q
        → YieldsOr checks (Explained pow q) (advance_pop checks (at c))
    unfolding advance_pop
    advance_at pop_idle inv = ran (q, inv, refl)
    advance_at (pop_reload n) inv = advance-reload n inv
    advance_at (pop_read n) inv = advance-read n inv
    advance_at (pop_release n v) inv = advance-release v n inv

  pub advance_pop-Explained :
      (checks : Bool) (pow : ℕ) (s : System A) (q : List A)
      → IsQueue pow s q
      → YieldsOr checks (Explained pow q) (advance_pop checks s)
  advance_pop-Explained checks pow s q inv =
      advance_at checks pow s.inner s.head_cache s.tail_cache s.pushing q s.popping inv
