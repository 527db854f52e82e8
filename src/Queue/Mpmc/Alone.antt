-- ===== src/Queue/Mpmc/Alone.antt =====
-- algors-queue/src/mpmc.rs: a call that no piece of another call comes between ends after five pieces at most.
pub mod Push
pub mod Pop
use native.Mathlib.Nat.{mod-lt}
use algors.Prelude.{
  ℕ, suc, ◌+◌, ◌-◌, ◌%◌, ◌^◌, ◌≤◌, ◌<◌, ◌≡◌, ◌≢◌, ◌⊎◌, refl, sym, ap, ◌∙◌, subst, inl, inr, fun_ext,
  List, [], ◌∷◌, ◌++◌, Option, none, some, Bool, true, false, not, ◌||◌, arith, ltb, ◌==◌,
  if◌then◌else◌, Bool-cases, length, length-set, get_elem?, set, done, Yields, yields, Yields-done,
  ◌>>=◌, ℕ_discrete,
}
use algors.Queue.Mpmc.{
  Inner, Call, outside, push_load, push_look, push_claim, push_write, push_publish, pop_load,
  pop_look, pop_claim, pop_read, pop_release, Event, silent, claimed, reserved, pushed, refused,
  popped, found_empty, assign, add, mask, len, advance, judge_push, judge_pop, claim_tail,
  claim_head, finish, try_push, try_pop, slot_at, write_slot, store_seq, take_slot,
}
use algors.Queue.Mpmc.Invariant.{
  same_slot, same_slot_near, same_slot_next, with_seq, Holds, Holds-same, Knows, place, free, ready,
  owned, IsQueue, filling, emptying, Knows-IsOwned,
}
use algors.Queue.Mpmc.Exact.{
  add-exact, mask-exact, slot_at-exact, store_seq-exact, write_slot-exact, take_slot-exact,
  judge_push-exact, judge_pop-exact,
}
use algors.Queue.Mpmc.Slots.{assign_self, assign_other, Holds-set, store-IsQueue}
use algors.Queue.Mpmc.Claims.{tail-free, head-ready, get_elem?-append_last}
use algors.Queue.Mpmc.Claims.Tail.{tail-IsQueue}
use algors.Queue.Mpmc.Claims.Head.{head-IsQueue}
use algors.Queue.Mpmc.Seen.{IsFull, IsEmpty, push-Seen, pop-Seen}
use algors.Queue.Mpmc.Pieces.{Explained}
use algors.Queue.Mpmc.Start.{advance-Explained}

module _ {ℓ} {A : Type ℓ} where
  pub assign-assign :
      (calls : ℕ → Call A) (i : ℕ) (c c' : Call A)
      → assign (assign calls i c) i c' ≡ assign calls i c'
  assign-assign calls i c c' =
      fun_ext λ j. elim (Bool-cases (i == j)) [ inl same ↦ rw same | inr other ↦ rw other ]

  pub assign_back :
      (calls : ℕ → Call A) (i : ℕ) (c : Call A) → calls i ≡ c → assign calls i c ≡ calls
  assign_back calls i c is = fun_ext λ j. elim (ℕ_discrete i j) [
    | yes same ↦ subst (λ k. assign calls i c k ≡ calls k) same (assign_self calls i c ∙ sym is)
    | no other ↦ assign_other calls i j c other
  ]
