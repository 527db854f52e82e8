-- ===== src/Queue/Mpmc/Alone/Push.antt =====
-- `try_push` of algors-queue/src/mpmc.rs, alone.
use native.Mathlib.Nat.{mod-lt}
use algors.Prelude.{
  ℕ, suc, ◌+◌, ◌-◌, ◌%◌, ◌^◌, ◌≤◌, ◌<◌, ◌≡◌, ◌⊎◌, refl, sym, ap, ◌∙◌, subst, inl, inr, List, [],
  ◌∷◌, ◌++◌, Option, none, some, Bool, true, false, arith, ltb, ◌==◌, Bool-cases, length,
  length-set, set, Yields, yields, ℕ_discrete,
}
use algors.Queue.Mpmc.{
  Inner, Call, outside, push_write, push_publish, Event, claimed, pushed, refused, assign, mask,
  advance, claim_tail, finish, try_push,
}
use algors.Queue.Mpmc.Invariant.{
  same_slot, with_seq, Holds, Holds-same, place, free, ready, owned, IsQueue, filling, emptying,
  Knows-IsOwned,
}
use algors.Queue.Mpmc.Exact.{
  add-exact, mask-exact, slot_at-exact, store_seq-exact, write_slot-exact, judge_push-exact,
}
use algors.Queue.Mpmc.Slots.{assign_self, Holds-set, store-IsQueue}
use algors.Queue.Mpmc.Claims.{tail-free, get_elem?-append_last}
use algors.Queue.Mpmc.Claims.Tail.{tail-IsQueue}
use algors.Queue.Mpmc.Seen.{IsFull, push-Seen}
use algors.Queue.Mpmc.Alone.{assign-assign, assign_back}

module _ {ℓ} {A : Type ℓ} where
  module _ (pow : ℕ) (inner : Inner A) (calls : ℕ → Call A) (vals : List A) where
    -- The slot of the tail never has a number above it.
    tail-seq-le :
        (seq : ℕ) (x : Option A)
        → IsQueue (2 ^ pow) inner calls vals
        → Holds (2 ^ pow) inner.buf inner.tail seq x
        → seq ≤ inner.tail
    tail-seq-le seq x inv holds =
        let t = inner.tail in
        let (q, e, slot) =
          inv.slots (t % 2 ^ pow) (mod-lt t {m = 2 ^ pow} (omega (arith, inv.two))) in
        elim slot [
          | free here ge lt ↦
              let (eq, same) = Holds-same (2 ^ pow) inner.buf q t q seq none x e here holds in
              elim (ℕ_discrete q t) [
                | yes at ↦ omega arith
                | no past ↦
                    absurd
                      (same_slot (2 ^ pow) t q (sym e) (omega arith) (omega (arith, inv.order)))
              ]
          | ready v here val ge lt ↦
              let (eq, same) =
                Holds-same (2 ^ pow) inner.buf q t (suc q) seq (some v) x e here holds in
              omega arith
          | owned j f ↦ elim (Knows-IsOwned (2 ^ pow) inner vals (calls j) q (inv.knows j) f) [
            | filling y here ge lt ↦
                let (eq, same) = Holds-same (2 ^ pow) inner.buf q t q seq y x e here holds in
                omega arith
            | emptying y here lt le ↦
                let (eq, same) = Holds-same (2 ^ pow) inner.buf q t (suc q) seq y x e here holds in
                omega (arith, inv.order)
          ]
        ]

  claim_tail-exact :
      (inner : Inner A) (v : A)
      → claim_tail false 0 inner v inner.tail (suc inner.tail)
        ≡ (claimed v, record inner { tail = suc inner.tail }, push_write v inner.tail)
  unfolding claim_tail
  claim_tail-exact inner v = let test : (inner.tail == inner.tail) ≡ true = ground arith in rw test

  -- What `try_push` of `v` comes to, from a ring that has accepted `vals`.
  abbrev pub PushesAlone : ℕ → Inner A → (ℕ → Call A) → List A → A → Event A × Inner A → Type ℓ
  PushesAlone pow inner calls vals v (e, inner') =
      ((e ≡ pushed inner.tail v)
        × (length vals < inner.head + 2 ^ pow)
        × (inner'.head ≡ inner.head)
        × IsQueue (2 ^ pow) inner' calls (vals ++ v ∷ []))
      ⊎ ((e ≡ refused v) × (inner' ≡ inner) × IsFull (2 ^ pow) inner.head inner.tail calls)

  module _ (checks : Bool) (pow : ℕ) (inner : Inner A) (calls : ℕ → Call A) (vals : List A) (i : ℕ)
      (inv : IsQueue (2 ^ pow) inner calls vals) (is : calls i ≡ outside)
      (small : length vals + 2 ^ pow < 2 ^ 63) where
    abbrev t : ℕ
    t = inner.tail

    abbrev claimed_inner : Inner A
    claimed_inner = record inner { tail = suc t }

    abbrev written : A → Inner A
    written v = record claimed_inner { buf = set inner.buf (t % 2 ^ pow) (with_seq t (some v)) }

    abbrev published : A → Inner A
    published v = record (written v) {
      buf = set (written v).buf (t % 2 ^ pow) (with_seq (suc t) (some v));
    }

    module _ (v : A) (here : Holds (2 ^ pow) inner.buf t t none) where
      in_slot : Holds (2 ^ pow) (written v).buf t t (some v)
      in_slot = Holds-set (2 ^ pow) inner.buf t t (some v) (omega (arith, inv.two)) inv.size

      -- The claim, the write and the publication, one after the other.
      published-IsQueue : IsQueue (2 ^ pow) (published v) calls (vals ++ v ∷ [])
      published-IsQueue =
          let claims = tail-IsQueue (2 ^ pow) inner calls vals inv i t v refl here (ap place is) in
          let at_write = assign calls i (push_write v t) in
          let at_publish = assign at_write i (push_publish v t) in
          let last = get_elem?-append_last vals v t inv.count in
          let size : length (written v).buf ≡ 2 ^ pow =
            length-set inner.buf (t % 2 ^ pow) (with_seq t (some v)) ∙ inv.size in
          let writes =
            store-IsQueue (2 ^ pow) claimed_inner at_write (vals ++ v ∷ []) claims i t
              (ap place (assign_self calls i (push_write v t))) (with_seq t (some v))
              (push_publish v t) t refl (omega (arith, inv.order), omega arith, in_slot, last)
              (λ q e. cc) (owned i (ap place (assign_self at_write i (push_publish v t)))) in
          let publishes =
            store-IsQueue (2 ^ pow) (written v) at_publish (vals ++ v ∷ []) writes i t
              (ap place (assign_self at_write i (push_publish v t))) (with_seq (suc t) (some v))
              outside t refl tt (λ q e. cc)
              (ready v
                (Holds-set (2 ^ pow) (written v).buf t (suc t) (some v) (omega (arith, inv.two))
                  size)
                last (omega (arith, inv.order)) (omega arith)) in
          subst (λ cs. IsQueue (2 ^ pow) (published v) cs (vals ++ v ∷ []))
            (assign-assign at_write i (push_publish v t) outside
              ∙ assign-assign calls i (push_write v t) outside
              ∙ assign_back calls i outside is)
            publishes

    -- A call of `try_push` that no piece of another call comes between, with no spurious failure and no late
    -- load, on a ring of two slots or more that accepted fewer than 2 ^ 63 - 2 ^ pow values, ends after five
    -- pieces at most: with `Ok` while fewer than 2 ^ pow values are unclaimed, and then it has appended the
    -- value; or with the value back, the ring as it was, and no slot free for the value.
    pub try_push-PushesAlone :
        (v : A) → Yields (PushesAlone pow inner calls vals v) (try_push checks inner v)
    unfolding try_push finish advance
    try_push-PushesAlone v =
        let (seq, x, holds, bound, full) =
          push-Seen (2 ^ pow) inner calls vals inv t (omega arith) in
        let le = tail-seq-le pow inner calls vals seq x inv holds in
        let first : t - 0 ≡ t = omega arith in
        let next : t + 1 ≡ suc t = omega arith in
        let at = mask-exact pow inner t inv.size in
        let looks = slot_at-exact (2 ^ pow) inner t (mask inner t) seq x at holds in
        let judges =
          judge_push-exact inner v t seq (omega (arith, inv.count)) (omega (arith, inv.count)) in
        elim (Bool-cases (seq == t)) [
          | inl same ↦
              let eq : seq ≡ t = ground arith in
              let (here, room) =
                tail-free (2 ^ pow) inner calls vals inv t x refl
                  (subst (λ n. Holds (2 ^ pow) inner.buf t n x) eq holds) in
              let at' = mask-exact pow claimed_inner t inv.size in
              let at'' =
                mask-exact pow (written v) t
                  (length-set inner.buf (t % 2 ^ pow) (with_seq t (some v)) ∙ inv.size) in
              rw
                (
                  first,
                  looks,
                  judges,
                  same,
                  add-exact checks t 1 (omega (arith, inv.count)),
                  next,
                  claim_tail-exact inner v,
                  write_slot-exact (2 ^ pow) claimed_inner t (mask claimed_inner t) t none at' here
                      v,
                  add-exact checks t 1 (omega (arith, inv.count)),
                  next,
                  store_seq-exact (2 ^ pow) (written v) t (mask (written v) t) t (some v) at''
                      (in_slot v here) (suc t),
                )
                (yields {a = (pushed t v, published v)}
                  (inl (refl, omega (arith, inv.count), refl, published-IsQueue v here)))
          | inr other ↦
              let below : ltb seq t ≡ true = ground arith in
              rw (first, looks, judges, other, below)
                (yields {a = (refused v, inner)} (inr (refl, refl, full (ground arith))))
        ]
