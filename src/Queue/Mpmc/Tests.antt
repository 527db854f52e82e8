-- ===== src/Queue/Mpmc/Tests.antt =====
-- Runs of algors-queue/src/mpmc.rs, on a ring of two slots.
use algors.Prelude.{
  ℕ, ◌+◌, ◌^◌, ◌≤◌, ◌<◌, ◌≡◌, ◌≢◌, ◌⊎◌, inl, inr, refl, subst, List, [], ◌∷◌, Option, none, some,
  false, arith, length, drop, Outcome, done, panic, undefined, exhausted, ◌>>=◌, Yields,
  Yields-done, yields,
}
use algors.Prelude.Indices.{wrapping_sub}
use algors.Queue.Mpmc.{
  Inner, Call, outside, push_load, pop_load, Event, silent, claimed, reserved, pushed, refused,
  popped, found_empty, System, assign, add, is_negative, len, mask, new_slots, new, slot_at,
  store_slot, store_seq, write_slot, take_slot, judge_push, claim_tail, judge_pop, claim_head,
  advance, finish, try_push, try_pop, drop_inner, new_mpmc,
}
use algors.Queue.Mpmc.Steps.{
  call_push, call_pop, goes_on, Reach, start, later, accepted, delivered, received, times,
}
use algors.Queue.Mpmc.Invariant.{place, IsQueue}
use algors.Queue.Mpmc.Seen.{taking}
use algors.Queue.Mpmc.Pieces.{Explained}
use algors.Queue.Mpmc.Start.{new_mpmc-IsQueue}
use algors.Queue.Mpmc.History.{AreAt, Falling}
use algors.Queue.Mpmc.Fifo.{exactly_once, received-Falling, next_piece-Explained, slots_apart}
use algors.Queue.Mpmc.Drop.{IsDropped, drop_inner-IsDropped}
use algors.Queue.Mpmc.Alone.Push.{PushesAlone, try_push-PushesAlone}
use algors.Queue.Mpmc.Alone.Pop.{PopsAlone, try_pop-PopsAlone}
use algors.Queue.Mpmc.Wait.{attempt, attempt_pop, push, pop, Others, Answered, returned}
use algors.Queue.Mpmc.Waited.Push.{Meanwhile, IsAccepted, push-IsAccepted}
use algors.Queue.Mpmc.Waited.Pop.{IsPopped, pop-IsPopped}
use algors.Queue.Spsc.Wait.{Result, ok}
use algors.Utils.Waiter.{retry, spin_wait}

abbrev empty : System ℕ
empty = record {
  inner = record {
    buf = record { seq = 0; value = none } ∷ record { seq = 1; value = none } ∷ [];
    head = 0;
    tail = 0;
  };
  calls = λ i. outside;
}

-- The system after the next piece of the call of thread `i`.
abbrev next : ℕ → System ℕ → System ℕ
next i s = elim (advance false false 0 s.inner (s.calls i)) [
  | done (e, inner, c) ↦ record { inner = inner; calls = assign s.calls i c }
  | panic ↦ s
  | undefined ↦ s
  | exhausted ↦ s
]

abbrev starts : ℕ → Call ℕ → System ℕ → System ℕ
starts i c s = record s { calls = assign s.calls i c }

-- Thread 0 has claimed a slot for 7, and thread 1 is about to load the sequence number of it.
abbrev looking : System ℕ
looking = next 1 (next 0 (starts 1 pop_load (next 0 (next 0 (starts 0 (push_load 7) empty)))))

-- Thread 1 has claimed the value.
abbrev reading : System ℕ
reading = next 1 (next 1 (next 0 (next 0 looking)))

abbrev returned_to : System ℕ
returned_to = next 1 (next 1 reading)

abbrev first_events : List (ℕ × Event ℕ)
first_events =
    (1, silent) ∷ (0, claimed 7) ∷ (1, silent) ∷ (0, silent) ∷ (0, silent) ∷ (0, silent) ∷ []

abbrev events_to_read : List (ℕ × Event ℕ)
events_to_read = (1, reserved) ∷ (1, silent) ∷ (0, pushed 0 7) ∷ (0, silent) ∷ first_events

abbrev events : List (ℕ × Event ℕ)
events = (1, popped 0 7) ∷ (1, silent) ∷ events_to_read

run_to_look : Reach false 1 first_events looking
unfolding new_mpmc new new_slots advance slot_at judge_push claim_tail mask add wrapping_sub
    is_negative
run_to_look =
    later
      (later
        (later
          (later
            (later (later (start {s = empty} refl) (call_push 0 7 refl)) (goes_on 0 false 0 refl))
            (goes_on 0 false 0 refl))
          (call_pop 1 refl))
        (goes_on 0 false 0 refl))
      (goes_on 1 false 0 refl)

run_to_read : Reach false 1 events_to_read reading
unfolding new_mpmc new new_slots advance slot_at store_slot store_seq write_slot judge_push
    claim_tail judge_pop claim_head mask add wrapping_sub is_negative
run_to_read =
    later
      (later (later (later run_to_look (goes_on 0 false 0 refl)) (goes_on 0 false 0 refl))
        (goes_on 1 false 0 refl))
      (goes_on 1 false 0 refl)

run : Reach false 1 events returned_to
unfolding new_mpmc new new_slots advance slot_at store_slot store_seq write_slot take_slot
    judge_push claim_tail judge_pop claim_head mask len add wrapping_sub is_negative
run = later (later run_to_read (goes_on 1 false 0 refl)) (goes_on 1 false 0 refl)

run_results : (accepted events ≡ 7 ∷ []) × (delivered events ≡ (0, 7) ∷ [])
unfolding accepted delivered
run_results = (refl, refl)

few : length (accepted events) + 2 ^ 1 < 2 ^ 63
unfolding accepted
few = omega arith

few_to_read : length (accepted events_to_read) + 2 ^ 1 < 2 ^ 63
unfolding accepted
few_to_read = omega arith

exactly_once_example :
    (returned_to.inner.head ≤ length (accepted events))
    × (length (accepted events) ≤ returned_to.inner.head + 2 ^ 1)
    × AreAt (accepted events) (delivered events)
    × (((0 < returned_to.inner.head)
          × (((times 0 (delivered events) ≡ 1) × ((j : ℕ) → taking (returned_to.calls j) ≢ some 0))
              ⊎ ((times 0 (delivered events) ≡ 0)
                  × ((j : ℕ) × (taking (returned_to.calls j) ≡ some 0)))))
        ⊎ ((returned_to.inner.head ≤ 0) × (times 0 (delivered events) ≡ 0)))
exactly_once_example = exactly_once false 1 events returned_to 0 (omega arith) run few

received-Falling_example : Falling (received 1 events)
received-Falling_example = received-Falling false 1 events returned_to 1 (omega arith) run few

next_piece-Explained_example :
    Yields
      (Explained (2 ^ 1) reading.inner reading.calls (accepted events_to_read) 1 (reading.calls 1))
      (advance false false 0 reading.inner (reading.calls 1))
next_piece-Explained_example =
    next_piece-Explained false 1 events_to_read reading 1 false 0 (omega arith) run_to_read
      few_to_read

-- Thread 0 has claimed the other slot for 8.
abbrev both_in : System ℕ
both_in = next 0 (next 0 (next 0 (starts 0 (push_load 8) reading)))

abbrev events_both_in : List (ℕ × Event ℕ)
events_both_in = (0, claimed 8) ∷ (0, silent) ∷ (0, silent) ∷ (0, silent) ∷ events_to_read

run_to_both_in : Reach false 1 events_both_in both_in
unfolding new_mpmc new new_slots advance slot_at store_slot store_seq write_slot judge_push
    claim_tail judge_pop claim_head mask add wrapping_sub is_negative
run_to_both_in =
    later
      (later (later (later run_to_read (call_push 0 8 refl)) (goes_on 0 false 0 refl))
        (goes_on 0 false 0 refl))
      (goes_on 0 false 0 refl)

few_both_in : length (accepted events_both_in) + 2 ^ 1 < 2 ^ 63
unfolding accepted
few_both_in = omega arith

places : (place (both_in.calls 0) ≡ some 1) × (place (both_in.calls 1) ≡ some 0)
unfolding new_mpmc new new_slots advance slot_at store_slot store_seq write_slot judge_push
    claim_tail judge_pop claim_head mask add wrapping_sub is_negative
places = (refl, refl)

slots_apart_example : mask both_in.inner 1 ≢ mask both_in.inner 0
slots_apart_example =
    slots_apart false 1 events_both_in both_in 0 1 1 0 (omega arith) run_to_both_in few_both_in
      (omega arith) (places.0) (places.1)

empty-IsQueue : IsQueue (2 ^ 1) empty.inner empty.calls []
unfolding new_mpmc new new_slots
empty-IsQueue = Yields-done (new_mpmc-IsQueue 1 (omega arith) (omega arith))

try_push-PushesAlone_example :
    Yields (PushesAlone 1 empty.inner empty.calls [] 7) (try_push false empty.inner 7)
try_push-PushesAlone_example =
    try_push-PushesAlone false 1 empty.inner empty.calls [] 0 empty-IsQueue refl (omega arith) 7

abbrev queued : Inner ℕ
queued = record {
  buf = record { seq = 1; value = some 7 } ∷ record { seq = 1; value = none } ∷ [];
  head = 0;
  tail = 1;
}

push_queues : try_push false empty.inner 7 ≡ done (pushed 0 7, queued)
unfolding try_push finish advance slot_at store_slot store_seq write_slot judge_push claim_tail mask
    add wrapping_sub is_negative
push_queues = refl

queued-IsQueue : IsQueue (2 ^ 1) queued empty.calls (7 ∷ [])
queued-IsQueue =
    elim (Yields-done (
      subst (Yields (PushesAlone 1 empty.inner empty.calls [] 7)) push_queues (
        try_push-PushesAlone false 1 empty.inner empty.calls [] 0 empty-IsQueue refl (omega arith)
          7))) [ inl (is, room, head, inv) ↦ inv | inr (is, same, full) ↦ cc ]

try_pop-PopsAlone_example : Yields (PopsAlone 1 queued empty.calls (7 ∷ [])) (try_pop false queued)
try_pop-PopsAlone_example =
    try_pop-PopsAlone false 1 queued empty.calls (7 ∷ []) 0 queued-IsQueue refl (omega arith)

drop_inner-IsDropped_example : Yields (IsDropped (drop 0 (7 ∷ []))) (drop_inner false queued)
drop_inner-IsDropped_example =
    drop_inner-IsDropped false 1 queued empty.calls (7 ∷ []) queued-IsQueue (λ i. refl)
      (omega arith)

abbrev queued_system : System ℕ
queued_system = record { inner = queued; calls = λ i. outside }

-- `push` and `pop` with `SpinWait`.
abbrev spinning :
    {S R : Type 0} → (S → Outcome (Option R × S)) → S → Outcome (Result R (Unit {0}) × S)
spinning op st = spin_wait op (λ st'. st') false 1 st >>= λ (v, st'). done (ok v, st')

spinning-push :
    Yields
      (λ (r, st). Answered (attempt false) (Meanwhile false 1 0) (empty, some 7) r st)
      (spinning (attempt false) (empty, some 7))
unfolding try_push finish advance slot_at store_slot store_seq write_slot judge_push claim_tail mask
    add wrapping_sub is_negative attempt spin_wait retry
spinning-push = yields (returned refl)

push-IsAccepted_example : Yields (IsAccepted false 1 0 empty [] 7) (push false spinning empty 7)
push-IsAccepted_example =
    push-IsAccepted false 1 0 spinning empty [] 7 empty-IsQueue refl (omega arith) spinning-push

spinning-pop :
    Yields
      (λ (r, s). Answered (attempt_pop false) (Others false 1 0) queued_system r s)
      (spinning (attempt_pop false) queued_system)
unfolding try_pop finish advance slot_at store_slot store_seq take_slot judge_pop claim_head mask
    len add wrapping_sub is_negative attempt_pop spin_wait retry
spinning-pop = yields (returned refl)

pop-IsPopped_example :
    Yields (IsPopped false 1 0 queued_system (7 ∷ [])) (pop false spinning queued_system)
pop-IsPopped_example =
    pop-IsPopped false 1 0 spinning queued_system (7 ∷ []) queued-IsQueue refl (omega arith)
      spinning-pop

-- A full ring refuses a value, and an empty one has none.
abbrev three_pushes : Outcome (Event ℕ × Event ℕ × Event ℕ)
three_pushes = try_push false empty.inner 1 >>= λ (e, n).
    try_push false n 2 >>= λ (e', n'). try_push false n' 3 >>= λ (e'', n''). done (e, e', e'')

full_refuses : three_pushes ≡ done (pushed 0 1, pushed 1 2, refused 3)
unfolding try_push finish advance slot_at store_slot store_seq write_slot judge_push claim_tail mask
    add wrapping_sub is_negative
full_refuses = refl

empty_has_none : try_pop false empty.inner ≡ done (found_empty, empty.inner)
unfolding try_pop finish advance slot_at judge_pop mask add wrapping_sub is_negative
empty_has_none = refl

-- A ring of one slot loses a value: a second push overwrites the first, which was not read, and no pop
-- ends any more.
abbrev two_pushes : Outcome (Event ℕ × Event ℕ × Inner ℕ)
two_pushes = new {A = ℕ} 0 >>= λ n.
    try_push false n 1 >>= λ (e, n'). try_push false n' 2 >>= λ (e', n''). done (e, e', n'')

abbrev overwritten : Inner ℕ
overwritten = record { buf = record { seq = 2; value = some 2 } ∷ []; head = 0; tail = 2 }

one_slot_overwrites : two_pushes ≡ done (pushed 0 1, pushed 1 2, overwritten)
unfolding new new_slots try_push finish advance slot_at store_slot store_seq write_slot judge_push
    claim_tail mask add wrapping_sub is_negative
one_slot_overwrites = refl

one_slot_reloads :
    advance false false 0 overwritten (Call.pop_look 0) ≡ done (silent, overwritten, pop_load)
unfolding advance slot_at judge_pop mask add wrapping_sub is_negative
one_slot_reloads = refl
