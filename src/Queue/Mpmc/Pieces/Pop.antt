-- ===== src/Queue/Mpmc/Pieces/Pop.antt =====
-- algors-queue/src/mpmc.rs: the pieces of `try_pop`.
use native.Mathlib.Nat.{add-mod_right}
use algors.Prelude.{
  ℕ, suc, ◌+◌, ◌-◌, ◌%◌, ◌^◌, ◌<◌, ◌≡◌, refl, sym, ap, subst, inl, inr, List, none, some, Bool, not,
  ◌||◌, arith, ltb, ◌==◌, Bool-cases, set, Yields, yields,
}
use algors.Queue.Mpmc.{
  Inner, Call, outside, pop_load, pop_look, pop_claim, pop_read, pop_release, reserved, popped,
  found_empty, mask, len, claim_head, advance,
}
use algors.Queue.Mpmc.Invariant.{with_seq, Holds, Knows, place, free, owned, IsQueue}
use algors.Queue.Mpmc.Exact.{
  add-exact, mask-exact, slot_at-exact, store_seq-exact, take_slot-exact, judge_pop-exact,
}
use algors.Queue.Mpmc.Slots.{assign_self, Holds-set, store-IsQueue}
use algors.Queue.Mpmc.Claims.{local-IsQueue, head-ready}
use algors.Queue.Mpmc.Claims.Head.{head-IsQueue}
use algors.Queue.Mpmc.Seen.{IsEmpty, pop-Seen}
use algors.Queue.Mpmc.Pieces.{Explained, local-Explained}

module _ {ℓ} {A : Type ℓ} (checks weak : Bool) (lag pow : ℕ) (inner : Inner A) (calls : ℕ → Call A)
    (vals : List A) (inv : IsQueue (2 ^ pow) inner calls vals)
    (small : inner.tail + 2 ^ pow < 2 ^ 63) (i : ℕ) where
  abbrev Goes : Call A → Type ℓ
  Goes c = Yields (Explained (2 ^ pow) inner calls vals i c) (advance checks weak lag inner c)

  abbrev known : (c : Call A) → calls i ≡ c → Knows (2 ^ pow) inner vals c
  known c is = subst (Knows (2 ^ pow) inner vals) is (inv.knows i)

  pub pop_load-Explained : calls i ≡ pop_load → Goes pop_load
  unfolding advance
  pop_load-Explained is = yields (
      local-Explained (2 ^ pow) inner calls vals i pop_load (pop_look (inner.head - lag)) inv is
        refl refl refl (omega arith, tt))

  pub pop_look-Explained : (p : ℕ) → calls i ≡ pop_look p → Goes (pop_look p)
  unfolding advance
  pop_look-Explained p is =
      let (le, k) = known (pop_look p) is in
      let (seq, x, holds, bound, empty) = pop-Seen (2 ^ pow) inner calls vals inv p le in
      let at = mask-exact pow inner p inv.size in
      let local = local-Explained (2 ^ pow) inner calls vals i (pop_look p) in
      let next : p + 1 ≡ suc p = omega arith in
      rw
        (
          slot_at-exact (2 ^ pow) inner p (mask inner p) seq x at holds,
          add-exact checks p 1 (omega (arith, inv.order)),
          next,
          judge_pop-exact inner p (suc p) seq (omega arith) (omega (arith, inv.order, inv.two)),
        )
        (elim (Bool-cases (seq == suc p)) [
          | inl same ↦ rw same (
              yields (
                local (pop_claim p) inv is refl refl refl (
                  le,
                  λ head.
                      let eq : seq ≡ suc p = ground arith in
                      (x, subst (λ n. Holds (2 ^ pow) inner.buf p n x) eq holds),
                )))
          | inr other ↦ elim (Bool-cases (ltb seq (suc p))) [
            | inl below ↦
                rw (other, below)
                  (yields {a = (found_empty, inner, outside)} (
                    vals,
                    local-IsQueue (2 ^ pow) inner calls vals inv i outside (ap place is) tt refl,
                    (
                      subst (λ t. IsEmpty inner.head t calls) (sym inv.count)
                          (empty (ground arith)),
                      (refl, refl, refl),
                    ),
                  ))
            | inr above ↦ rw (other, above) (yields (local pop_load inv is refl refl refl tt))
          ]
        ])

  pub pop_claim-Explained : (p : ℕ) → calls i ≡ pop_claim p → Goes (pop_claim p)
  unfolding advance claim_head
  pop_claim-Explained p is =
      let (le, last) = known (pop_claim p) is in
      let again =
        local-Explained (2 ^ pow) inner calls vals i (pop_claim p) (pop_look (inner.head - lag)) inv
          is refl refl refl (omega arith, tt) in
      rw (add-exact checks p 1 (omega (arith, inv.order)))
        (elim (Bool-cases (weak || not (inner.head == p))) [
          | inl fails ↦ rw fails (yields again)
          | inr wins ↦
              let at : p ≡ inner.head = ground arith in
              let (x, holds) = last at in
              let (lt, full) = head-ready (2 ^ pow) inner calls vals inv p x at holds in
              let next : p + 1 ≡ suc p = omega arith in
              rw (wins, next)
                (yields {a = (reserved, record inner { head = suc p }, pop_read p)} (
                  vals,
                  head-IsQueue (2 ^ pow) inner calls vals inv i p x at holds (ap place is),
                  (omega (arith, inv.count), refl, ap suc at, refl, ap some at),
                ))
        ])

  pub pop_read-Explained : (p : ℕ) → calls i ≡ pop_read p → Goes (pop_read p)
  unfolding advance
  pop_read-Explained p is =
      let (lt, le, (v, holds, val)) = known (pop_read p) is in
      let at = mask-exact pow inner p inv.size in
      let held = Holds-set (2 ^ pow) inner.buf p (suc p) none (omega (arith, inv.two)) inv.size in
      rw (take_slot-exact (2 ^ pow) inner p (mask inner p) (suc p) v at holds) (
        yields (
          vals,
          store-IsQueue (2 ^ pow) inner calls vals inv i p (ap place is) (with_seq (suc p) none)
              (pop_release p v) p refl (lt, le, held, val) (λ q e. cc)
              (owned i (ap place (assign_self calls i (pop_release p v)))),
          (refl, refl, refl),
        ))

  pub pop_release-Explained : (p : ℕ) (v : A) → calls i ≡ pop_release p v → Goes (pop_release p v)
  unfolding advance len
  pop_release-Explained p v is =
      let (lt, le, holds, val) = known (pop_release p v) is in
      let at = mask-exact pow inner p inv.size in
      let around : (p + 2 ^ pow) % 2 ^ pow ≡ p % 2 ^ pow = add-mod_right p (2 ^ pow) in
      let held : Holds (2 ^ pow) (set inner.buf (p % 2 ^ pow) (with_seq (p + 2 ^ pow) none))
          (p + 2 ^ pow) (p + 2 ^ pow) none =
        rw around
          (Holds-set (2 ^ pow) inner.buf p (p + 2 ^ pow) none (omega (arith, inv.two)) inv.size) in
      rw
        (
          inv.size,
          add-exact checks p (2 ^ pow) (omega (arith, inv.order)),
          store_seq-exact (2 ^ pow) inner p (mask inner p) (suc p) none at holds (p + 2 ^ pow),
        )
        (yields {a = (popped p v, _, outside)} (
          vals,
          store-IsQueue (2 ^ pow) inner calls vals inv i p (ap place is)
              (with_seq (p + 2 ^ pow) none) outside (p + 2 ^ pow) around tt (λ q e. cc)
              (free held le (omega arith)),
          (val, refl, refl, refl, refl),
        ))
