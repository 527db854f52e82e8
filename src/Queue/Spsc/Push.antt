-- ===== src/Queue/Spsc/Push.antt =====
-- `try_push` of algors-queue/src/spsc.rs: each piece of it keeps the invariant, and the last one adds the
-- value to the queue or finds the queue full.
use native.Mathlib.Nat.{mod-lt}
use mathlib.Core.List.{append-nil}
use algors.Prelude.{
  ℕ, suc, ◌+◌, ◌%◌, ◌^◌, ◌≤◌, ◌<◌, ◌≡◌, refl, sym, ap, ◌∙◌, subst, inl, inr, List, [], ◌∷◌, ◌++◌,
  none, some, Bool, true, false, Bool-cases, arith, ◌==◌, if◌then◌else◌, length, length-append,
  get_elem?-get_or, set, done, panic, YieldsOr, ran, stopped, YieldsOr-bind,
}
use algors.Prelude.Bits.{pow-pos}
use algors.Prelude.Indices.{usize_values}
use algors.Queue.Spsc.{
  Inner, Pushing, push_idle, push_reload, push_write, push_publish, Popping, pop_idle, pop_reload,
  pop_read, pop_release, System, Event, silent, pushed, refused, mask, is_full, increment,
  write_slot, begin_push, advance_push,
}
use algors.Queue.Spsc.Ring.{IsRing, write-IsRing}
use algors.Queue.Spsc.Invariant.{
  front, pending, Taken, IsQueue, Spec, length-filled, filled-snoc, is_full-exact, mask-exact,
  with_pushing,
}

-- A counter is incremented modulo the size of a word; with overflow checks, the increment may panic.
pub increment-exact :
    (checks : Bool) (n : ℕ)
    → YieldsOr checks (λ n'. n' ≡ (n + 1) % usize_values) (increment checks (n % usize_values))
unfolding increment
increment-exact checks n = elim (Bool-cases (n % usize_values + 1 == usize_values)) [
  | inl top ↦ rw top (at_top checks (ground arith))
  | inr below ↦ rw below (ran (ground arith))
]
  where
    at_top :
        (c : Bool)
        → 0 ≡ (n + 1) % usize_values
        → YieldsOr c (λ n'. n' ≡ (n + 1) % usize_values) (if c then panic else done 0)
    at_top true e = stopped refl
    at_top false e = ran e

module _ {ℓ} {A : Type ℓ} where
  pub length-front : (c : Popping A) (q : List A) → Taken c q → length (front c q) ≡ length q
  length-front pop_idle q h = length-filled q
  length-front (pop_reload c) q h = length-filled q
  length-front (pop_read c) q h = length-filled q
  length-front (pop_release c v) q (q', e) = rw e (ap suc (length-filled q'))

  front-snoc :
      (c : Popping A) (q : List A) (v : A)
      → Taken c q
      → front c (q ++ v ∷ []) ≡ front c q ++ some v ∷ []
  front-snoc pop_idle q v h = filled-snoc q v
  front-snoc (pop_reload c) q v h = filled-snoc q v
  front-snoc (pop_read c) q v h = filled-snoc q v
  front-snoc (pop_release c w) q v (q', e) = rw e (ap (◌∷◌ none) (filled-snoc q' v))

  Taken-snoc : (c : Popping A) (q : List A) (v : A) → Taken c q → Taken c (q ++ v ∷ [])
  Taken-snoc pop_idle q v h = tt
  Taken-snoc (pop_reload c) q v h = tt
  Taken-snoc (pop_read c) q v h = tt
  Taken-snoc (pop_release c w) q v (q', e) = (q' ++ v ∷ [], ap (λ p. p ++ v ∷ []) e)

  write_slot-exact :
      (inner : Inner A) (idx j : ℕ) (v : A)
      → idx ≡ j
      → j < length inner.buf
      → write_slot inner idx v ≡ done (record inner { buf = set inner.buf j (some v) })
  unfolding write_slot
  write_slot-exact inner idx j v e lt =
      subst (λ i. write_slot inner i v ≡ done (record inner { buf = set inner.buf j (some v) }))
        (sym e) (rw (write_slot, get_elem?-get_or inner.buf j none lt))

  -- A piece of a call leaves a queue that its event explains.
  abbrev pub Explained : ℕ → List A → Event A × System A → Type ℓ
  Explained pow q (e, s') = (q' : List A) × IsQueue pow s' q' × Spec (2 ^ pow) q e q'

  pub begin_push-IsQueue :
      (pow : ℕ) (s : System A) (q : List A) (v : A)
      → IsQueue pow s q
      → s.pushing ≡ push_idle
      → IsQueue pow (begin_push s v) q
  unfolding begin_push
  begin_push-IsQueue pow s q v inv idle =
      let (cached, le, fits) = inv.head_seen in
      let test : is_full s.inner s.inner.tail s.head_cache ≡ (inv.t == inv.hc + 2 ^ pow) =
        is_full-exact pow inv.small s.inner s.inner.tail s.head_cache inv.t inv.hc inv.ring.size
          inv.tail_at cached (omega (arith, inv.count)) fits in
      let nothing : [] ≡ pending s.pushing = sym (ap pending idle) in
      elim (Bool-cases (inv.t == inv.hc + 2 ^ pow)) [
        | inl full ↦
            rw (test, full)
              (with_pushing pow s q inv s.head_cache inv.hc (push_reload v s.inner.tail) nothing
                inv.head_seen inv.tail_at)
        | inr free ↦
            rw (test, free)
              (with_pushing pow s q inv s.head_cache inv.hc (push_write v s.inner.tail) nothing
                inv.head_seen (inv.tail_at, ground arith))
      ]

  module _ (checks : Bool) (pow : ℕ) (inner : Inner A) (hc tc : ℕ) (c : Popping A)
      (q : List A) where
    -- The system with the producer at `p`.
    abbrev at : Pushing A → System A
    at p = record { inner = inner; head_cache = hc; tail_cache = tc; pushing = p; popping = c }

    advance-reload :
        (v : A) (n : ℕ)
        → IsQueue pow (at (push_reload v n)) q
        → YieldsOr checks (Explained pow q) (advance_push checks (at (push_reload v n)))
    unfolding advance_push
    advance-reload v n inv =
        let test : is_full inner n inner.head ≡ (inv.t == inv.h + 2 ^ pow) =
          is_full-exact pow inv.small inner n inner.head inv.t inv.h inv.ring.size inv.push_at
            inv.head_at (omega (arith, inv.count)) (omega (arith, inv.count, inv.fits)) in
        let seen : (inner.head ≡ inv.h % usize_values)
            × (inv.h ≤ inv.h)
            × (inv.t ≤ inv.h + 2 ^ pow) =
          (inv.head_at, omega arith, omega (arith, inv.count, inv.fits)) in
        elim (Bool-cases (inv.t == inv.h + 2 ^ pow)) [
          | inl full ↦
              rw (test, full)
                (ran {a = (refused v, record (at push_idle) { head_cache = inner.head })} (
                  q,
                  with_pushing pow (at (push_reload v n)) q inv inner.head inv.h push_idle refl seen
                      tt,
                  (ground (arith, inv.count), refl),
                ))
          | inr free ↦
              rw (test, free)
                (ran {a = (silent, record (at (push_write v n)) { head_cache = inner.head })} (
                  q,
                  with_pushing pow (at (push_reload v n)) q inv inner.head inv.h (push_write v n)
                      refl seen (inv.push_at, ground (arith, inv.count, inv.fits)),
                  refl,
                ))
        ]

    advance-write :
        (v : A) (n : ℕ)
        → IsQueue pow (at (push_write v n)) q
        → YieldsOr checks (Explained pow q) (advance_push checks (at (push_write v n)))
    unfolding advance_push
    advance-write v n inv =
        let idx : mask inner n ≡ inv.t % 2 ^ pow =
          mask-exact pow inv.small inner n inv.t inv.ring.size inv.push_at.0 in
        let inside : inv.t % 2 ^ pow < length inner.buf =
          rw inv.ring.size (mod-lt inv.t {m = 2 ^ pow} (pow-pos pow)) in
        let size = length-front c q inv.taken in
        let ring : IsRing (2 ^ pow) inner.buf inv.h (front c q) = rw append-nil at inv.ring in
        let spot : inv.h + length (front c q) ≡ inv.t = omega (arith, inv.count, size) in
        let written =
          write-IsRing (2 ^ pow) inner.buf inv.h (front c q) v
            (omega (arith, size, inv.count, inv.head_seen, inv.push_at)) ring in
        rw (write_slot-exact inner (mask inner n) (inv.t % 2 ^ pow) v idx inside) (
          ran
            {a = (
              silent,
              record (at (push_publish v n)) {
                inner = record inner { buf = set inner.buf (inv.t % 2 ^ pow) (some v) };
              },
            )}
            (
              q,
              record {
                h = inv.h;
                t = inv.t;
                hc = inv.hc;
                tc = inv.tc;
                small = inv.small;
                count = inv.count;
                fits = inv.fits;
                head_at = inv.head_at;
                tail_at = inv.tail_at;
                ring = rw spot at written;
                head_seen = inv.head_seen;
                tail_seen = inv.tail_seen;
                push_at = inv.push_at;
                pop_at = inv.pop_at;
                taken = inv.taken;
              },
              refl,
            ))

    advance-publish :
        (v : A) (n : ℕ)
        → IsQueue pow (at (push_publish v n)) q
        → YieldsOr checks (Explained pow q) (advance_push checks (at (push_publish v n)))
    unfolding advance_push
    advance-publish v n inv =
        YieldsOr-bind (rw inv.push_at.0 (increment-exact checks inv.t)) λ t' e.
          ran {a = (pushed v, record (at push_idle) { inner = record inner { tail = t' } })} (
            q ++ v ∷ [],
            record {
              h = inv.h;
              t = inv.t + 1;
              hc = inv.hc;
              tc = inv.tc;
              small = inv.small;
              count = omega (arith, inv.count, length-append q (v ∷ []));
              fits = omega (arith, inv.count, inv.head_seen, inv.push_at, length-append q (v ∷ []));
              head_at = inv.head_at;
              tail_at = e;
              ring =
                  subst (IsRing (2 ^ pow) inner.buf inv.h)
                    (sym (append-nil (front c (q ++ v ∷ [])) ∙ front-snoc c q v inv.taken))
                    inv.ring;
              head_seen = (inv.head_seen.0, inv.head_seen.1, omega (arith, inv.push_at));
              tail_seen = (inv.tail_seen.0, inv.tail_seen.1, omega (arith, inv.tail_seen));
              push_at = tt;
              pop_at = inv.pop_at;
              taken = Taken-snoc c q v inv.taken;
            },
            (omega (arith, inv.count, inv.head_seen, inv.push_at), refl),
          )

    advance_at :
        (p : Pushing A)
        → IsQueue pow (at p) q
        → YieldsOr checks (Explained pow q) (advance_push checks (at p))
    unfolding advance_push
    advance_at push_idle inv = ran (q, inv, refl)
    advance_at (push_reload v n) inv = advance-reload v n inv
    advance_at (push_write v n) inv = advance-write v n inv
    advance_at (push_publish v n) inv = advance-publish v n inv

  pub advance_push-Explained :
      (checks : Bool) (pow : ℕ) (s : System A) (q : List A)
      → IsQueue pow s q
      → YieldsOr checks (Explained pow q) (advance_push checks s)
  advance_push-Explained checks pow s q inv =
      advance_at checks pow s.inner s.head_cache s.tail_cache s.popping q s.pushing inv
