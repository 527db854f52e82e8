-- ===== src/Queue/Mpmc/Pieces/Push.antt =====
-- algors-queue/src/mpmc.rs: the pieces of `try_push`.
use algors.Prelude.{
  ℕ, suc, ◌+◌, ◌-◌, ◌^◌, ◌<◌, ◌≡◌, refl, sym, ap, subst, inl, inr, List, [], ◌∷◌, ◌++◌, none, some,
  Bool, not, ◌||◌, arith, ltb, ◌==◌, Bool-cases, Yields, yields,
}
use algors.Queue.Mpmc.{
  Inner, Call, outside, push_load, push_look, push_claim, push_write, push_publish, claimed, pushed,
  refused, mask, claim_tail, advance,
}
use algors.Queue.Mpmc.Invariant.{with_seq, Holds, Knows, place, ready, owned, IsQueue}
use algors.Queue.Mpmc.Exact.{
  add-exact, mask-exact, slot_at-exact, store_seq-exact, write_slot-exact, judge_push-exact,
}
use algors.Queue.Mpmc.Slots.{assign_self, Holds-set, store-IsQueue}
use algors.Queue.Mpmc.Claims.{local-IsQueue, tail-free}
use algors.Queue.Mpmc.Claims.Tail.{tail-IsQueue}
use algors.Queue.Mpmc.Seen.{IsFull, push-Seen}
use algors.Queue.Mpmc.Pieces.{Explained, local-Explained}

module _ {ℓ} {A : Type ℓ} (checks weak : Bool) (lag pow : ℕ) (inner : Inner A) (calls : ℕ → Call A)
    (vals : List A) (inv : IsQueue (2 ^ pow) inner calls vals)
    (small : inner.tail + 2 ^ pow < 2 ^ 63) (i : ℕ) where
  abbrev Goes : Call A → Type ℓ
  Goes c = Yields (Explained (2 ^ pow) inner calls vals i c) (advance checks weak lag inner c)

  abbrev known : (c : Call A) → calls i ≡ c → Knows (2 ^ pow) inner vals c
  known c is = subst (Knows (2 ^ pow) inner vals) is (inv.knows i)

  pub push_load-Explained : (v : A) → calls i ≡ push_load v → Goes (push_load v)
  unfolding advance
  push_load-Explained v is = yields (
      local-Explained (2 ^ pow) inner calls vals i (push_load v) (push_look v (inner.tail - lag))
        inv is refl refl refl (omega arith, tt))

  pub push_look-Explained : (v : A) (p : ℕ) → calls i ≡ push_look v p → Goes (push_look v p)
  unfolding advance
  push_look-Explained v p is =
      let (le, k) = known (push_look v p) is in
      let (seq, x, holds, bound, full) = push-Seen (2 ^ pow) inner calls vals inv p le in
      let at = mask-exact pow inner p inv.size in
      let local = local-Explained (2 ^ pow) inner calls vals i (push_look v p) in
      rw
        (
          slot_at-exact (2 ^ pow) inner p (mask inner p) seq x at holds,
          judge_push-exact inner v p seq (omega arith) (omega arith),
        )
        (elim (Bool-cases (seq == p)) [
          | inl same ↦ rw same (
              yields (
                local (push_claim v p) inv is refl refl refl (
                  le,
                  λ tail.
                      let eq : seq ≡ p = ground arith in
                      (x, subst (λ n. Holds (2 ^ pow) inner.buf p n x) eq holds),
                )))
          | inr other ↦ elim (Bool-cases (ltb seq p)) [
            | inl below ↦
                rw (other, below)
                  (yields {a = (refused v, inner, outside)} (
                    vals,
                    local-IsQueue (2 ^ pow) inner calls vals inv i outside (ap place is) tt refl,
                    (
                      subst (λ t. IsFull (2 ^ pow) inner.head t calls) (sym inv.count)
                          (full (ground arith)),
                      (refl, refl, refl),
                    ),
                  ))
            | inr above ↦ rw (other, above) (yields (local (push_load v) inv is refl refl refl tt))
          ]
        ])

  pub push_claim-Explained : (v : A) (p : ℕ) → calls i ≡ push_claim v p → Goes (push_claim v p)
  unfolding advance claim_tail
  push_claim-Explained v p is =
      let (le, last) = known (push_claim v p) is in
      let again =
        local-Explained (2 ^ pow) inner calls vals i (push_claim v p)
          (push_look v (inner.tail - lag)) inv is refl refl refl (omega arith, tt) in
      rw (add-exact checks p 1 (omega arith)) (elim (Bool-cases (weak || not (inner.tail == p))) [
        | inl fails ↦ rw fails (yields again)
        | inr wins ↦
            let at : p ≡ inner.tail = ground arith in
            let (x, holds) = last at in
            let (here, room) = tail-free (2 ^ pow) inner calls vals inv p x at holds in
            let next : p + 1 ≡ suc p = omega arith in
            rw (wins, next)
              (yields {a = (claimed v, record inner { tail = suc p }, push_write v p)} (
                vals ++ v ∷ [],
                tail-IsQueue (2 ^ pow) inner calls vals inv i p v at here (ap place is),
                (omega (arith, inv.count), refl, refl, refl),
              ))
      ])

  pub push_write-Explained : (v : A) (p : ℕ) → calls i ≡ push_write v p → Goes (push_write v p)
  unfolding advance
  push_write-Explained v p is =
      let (le, lt, holds, val) = known (push_write v p) is in
      let at = mask-exact pow inner p inv.size in
      let held = Holds-set (2 ^ pow) inner.buf p p (some v) (omega (arith, inv.two)) inv.size in
      rw (write_slot-exact (2 ^ pow) inner p (mask inner p) p none at holds v) (
        yields (
          vals,
          store-IsQueue (2 ^ pow) inner calls vals inv i p (ap place is) (with_seq p (some v))
              (push_publish v p) p refl (le, lt, held, val) (λ q e. cc)
              (owned i (ap place (assign_self calls i (push_publish v p)))),
          (refl, refl, refl),
        ))

  pub push_publish-Explained :
      (v : A) (p : ℕ) → calls i ≡ push_publish v p → Goes (push_publish v p)
  unfolding advance
  push_publish-Explained v p is =
      let (le, lt, holds, val) = known (push_publish v p) is in
      let at = mask-exact pow inner p inv.size in
      let held =
        Holds-set (2 ^ pow) inner.buf p (suc p) (some v) (omega (arith, inv.two)) inv.size in
      let next : p + 1 ≡ suc p = omega arith in
      rw
        (
          add-exact checks p 1 (omega arith),
          next,
          store_seq-exact (2 ^ pow) inner p (mask inner p) p (some v) at holds (suc p),
        )
        (yields {a = (pushed p v, _, outside)} (
          vals,
          store-IsQueue (2 ^ pow) inner calls vals inv i p (ap place is) (with_seq (suc p) (some v))
              outside p refl tt (λ q e. cc) (ready v held val le lt),
          (val, (refl, refl, refl)),
        ))
