-- ===== src/Queue/Mpmc/Start.antt =====
-- `new_mpmc` of algors-queue/src/mpmc.rs, and the pieces of both calls together.
use native.Mathlib.Nat.{mod-eq_of_lt}
use algors.Prelude.{
  ℕ, zero, suc, ◌+◌, ◌^◌, ◌≤◌, ◌<◌, ◌≡◌, refl, ap, ◌∙◌, List, [], none, some, Bool, true, arith,
  ltb, length, get_elem?, Yields, yields,
}
use algors.Prelude.Bits.{pow_mono}
use algors.Queue.Mpmc.{
  Inner, Call, outside, push_load, push_look, push_claim, push_write, push_publish, pop_load,
  pop_look, pop_claim, pop_read, pop_release, System, new_slots, new, new_mpmc, advance,
}
use algors.Queue.Mpmc.Invariant.{with_seq, IsQueue, place, free}
use algors.Queue.Mpmc.Pieces.{Explained}
use algors.Queue.Mpmc.Pieces.Push.{
  push_load-Explained, push_look-Explained, push_claim-Explained, push_write-Explained,
  push_publish-Explained,
}
use algors.Queue.Mpmc.Pieces.Pop.{
  pop_load-Explained, pop_look-Explained, pop_claim-Explained, pop_read-Explained,
  pop_release-Explained,
}
use algors.Queue.Mpmc.Claims.{local-IsQueue}

length-new_slots {ℓ} : (A : Type ℓ) (n i : ℕ) → length (new_slots {A = A} n i) ≡ n
unfolding new_slots
length-new_slots A zero i = refl
length-new_slots A (suc n) i = ap suc (length-new_slots A n (i + 1))

get_elem?-new_slots {ℓ} :
    (A : Type ℓ) (n i j : ℕ)
    → j < n
    → get_elem? (new_slots {A = A} n i) j ≡ some (with_seq (i + j) none)
unfolding new_slots
get_elem?-new_slots A zero i j lt = absurd (omega arith)
get_elem?-new_slots A (suc n) i zero lt = let e : i + 0 ≡ i = omega arith in rw e
get_elem?-new_slots A (suc n) i (suc j) lt =
    let e : i + suc j ≡ i + 1 + j = omega arith in
    rw e (get_elem?-new_slots A n (i + 1) j (omega arith))

pub two-pow : (pow : ℕ) → 1 ≤ pow → 2 ≤ 2 ^ pow
two-pow zero le = absurd (omega arith)
two-pow (suc zero) le = omega arith
two-pow (suc (suc n)) le = omega (arith, pow_mono 1 (suc (suc n)) (omega arith))

module _ {ℓ} {A : Type ℓ} where
  -- The ring starts with no value, and every slot free for its first one.
  pub new_mpmc-IsQueue :
      (pow : ℕ)
      → 1 ≤ pow
      → pow < 64
      → Yields (λ (s : System A). IsQueue (2 ^ pow) s.inner s.calls []) (new_mpmc pow)
  unfolding new_mpmc new
  new_mpmc-IsQueue pow pos lt =
      let fits : ltb pow 64 ≡ true = ground arith in
      rw fits (
        yields (record {
          two = two-pow pow pos;
          size = length-new_slots A (2 ^ pow) 0;
          count = refl;
          order = omega arith;
          fits = omega arith;
          knows = λ i. tt;
          unique = λ i j p e f. cc;
          slots = λ j j_lt. (
            j,
            mod-eq_of_lt j_lt,
            free
                (ap (λ k. get_elem? (new_slots (2 ^ pow) 0) k) (mod-eq_of_lt j_lt)
                  ∙ get_elem?-new_slots A (2 ^ pow) 0 j j_lt
                  ∙ ap (λ k. some (with_seq k none)) (omega arith))
                (omega arith) (omega arith),
          );
        }))

  module _ (checks weak : Bool) (lag pow : ℕ) (inner : Inner A) (calls : ℕ → Call A) (vals : List A)
      (inv : IsQueue (2 ^ pow) inner calls vals) (small : inner.tail + 2 ^ pow < 2 ^ 63)
      (i : ℕ) where
    abbrev Goes : Call A → Type ℓ
    Goes c = Yields (Explained (2 ^ pow) inner calls vals i c) (advance checks weak lag inner c)

    call-Explained : (c : Call A) → calls i ≡ c → Goes c
    unfolding advance
    call-Explained outside is = yields (
      vals,
      local-IsQueue (2 ^ pow) inner calls vals inv i outside (ap place is) tt refl,
      (refl, refl, refl),
    )
    call-Explained (push_load v) is =
        push_load-Explained checks weak lag pow inner calls vals inv small i v is
    call-Explained (push_look v p) is =
        push_look-Explained checks weak lag pow inner calls vals inv small i v p is
    call-Explained (push_claim v p) is =
        push_claim-Explained checks weak lag pow inner calls vals inv small i v p is
    call-Explained (push_write v p) is =
        push_write-Explained checks weak lag pow inner calls vals inv small i v p is
    call-Explained (push_publish v p) is =
        push_publish-Explained checks weak lag pow inner calls vals inv small i v p is
    call-Explained pop_load is =
        pop_load-Explained checks weak lag pow inner calls vals inv small i is
    call-Explained (pop_look p) is =
        pop_look-Explained checks weak lag pow inner calls vals inv small i p is
    call-Explained (pop_claim p) is =
        pop_claim-Explained checks weak lag pow inner calls vals inv small i p is
    call-Explained (pop_read p) is =
        pop_read-Explained checks weak lag pow inner calls vals inv small i p is
    call-Explained (pop_release p v) is =
        pop_release-Explained checks weak lag pow inner calls vals inv small i p v is

    pub advance-Explained : Goes (calls i)
    advance-Explained = call-Explained (calls i) refl
