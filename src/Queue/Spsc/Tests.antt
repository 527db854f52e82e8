-- ===== src/Queue/Spsc/Tests.antt =====
-- Runs of algors-queue/src/spsc.rs, on a ring of two slots.
use algors.Prelude.{
  ℕ, Option, some, ◌-◌, ◌^◌, ◌≤◌, ◌≡◌, refl, List, [], ◌∷◌, ◌++◌, none, true, false, length, arith,
  Outcome, done, panic, ◌>>=◌, YieldsOr, YieldsOr-done, Yields, yields, Yields-done, subst,
}
use algors.Prelude.Indices.{usize_values, wrapping_sub}
use algors.Queue.Spsc.{
  System, Event, silent, pushed, refused, popped, push_idle, pop_idle, new, new_spsc, is_full,
  is_drained, mask, len, write_slot, take_slot, increment, begin_push, advance_push, begin_pop,
  advance_pop, finish_push, try_push, try_pop, drop_inner,
}
use algors.Queue.Spsc.Steps.{
  call_push, go_push, call_pop, go_pop, Reach, start, later, accepted, delivered,
}
use algors.Queue.Spsc.Invariant.{IsQueue, new_spsc-IsQueue}
use algors.Queue.Spsc.Push.{Explained, begin_push-IsQueue, advance_push-Explained}
use algors.Queue.Spsc.Fifo.{first_in_first_out, pieces-Explained}
use algors.Queue.Spsc.TryPush.{Pushes, quiet-same, try_push-Pushes}
use algors.Queue.Spsc.TryPop.{Pops, try_pop-Pops}
use algors.Queue.Spsc.Drop.{Drops, drop_inner-Drops}
use algors.Queue.Spsc.Wait.{Result, ok, attempt, push, Answered, returned}
use algors.Queue.Spsc.Waited.{IsPushed, push-IsPushed}
use algors.Utils.Waiter.{retry, spin_wait}

-- The system that a call ends with, or else the one before.
abbrev system_after : System ℕ → Outcome (Event ℕ × System ℕ) → System ℕ
system_after s (done (e, s')) = s'
system_after s _ = s

abbrev empty : System ℕ
empty = record {
  inner = record { head = 0; tail = 0; buf = none ∷ none ∷ [] };
  head_cache = 0;
  tail_cache = 0;
  pushing = push_idle;
  popping = pop_idle;
}

abbrev writing : System ℕ
writing = begin_push empty 7

abbrev publishing : System ℕ
publishing = system_after writing (advance_push false writing)

-- The consumer starts before the producer has published the value.
abbrev both : System ℕ
both = begin_pop publishing

abbrev published : System ℕ
published = system_after both (advance_push false both)

abbrev reloaded : System ℕ
reloaded = system_after published (advance_pop false published)

abbrev read_out : System ℕ
read_out = system_after reloaded (advance_pop false reloaded)

abbrev released : System ℕ
released = system_after read_out (advance_pop false read_out)

abbrev events : List (Event ℕ)
events = popped 7 ∷ silent ∷ silent ∷ pushed 7 ∷ silent ∷ silent ∷ silent ∷ []

run : Reach false 1 events released
unfolding new_spsc new begin_push advance_push begin_pop advance_pop is_full is_drained mask len
    write_slot take_slot increment wrapping_sub
run =
    later
      (later
        (later
          (later
            (later (later (later (start {s = empty} refl) (call_push 7 refl)) (go_push refl))
              (call_pop refl))
            (go_push refl))
          (go_pop refl))
        (go_pop refl))
      (go_pop refl)

-- The value of the run is the one that is delivered.
run_delivered : delivered events ≡ 7 ∷ []
unfolding delivered
run_delivered = refl

first_in_first_out_example :
    (q : List ℕ) × (length q ≤ 2 ^ 1) × (accepted events ≡ delivered events ++ q)
first_in_first_out_example = first_in_first_out false 1 events released run

-- Before the consumer reads the slot.
events_reloaded : Reach false 1 (silent ∷ pushed 7 ∷ silent ∷ silent ∷ silent ∷ []) reloaded
unfolding new_spsc new begin_push advance_push begin_pop advance_pop is_full is_drained mask len
    write_slot take_slot increment wrapping_sub
events_reloaded =
    later
      (later
        (later (later (later (start {s = empty} refl) (call_push 7 refl)) (go_push refl))
          (call_pop refl))
        (go_push refl))
      (go_pop refl)

pieces-Explained_example :
    (q : List ℕ) × (accepted (silent ∷ pushed 7 ∷ silent ∷ silent ∷ silent ∷ [])
      ≡ delivered (silent ∷ pushed 7 ∷ silent ∷ silent ∷ silent ∷ []) ++ q)
    × YieldsOr false (Explained 1 q) (advance_push false reloaded)
    × YieldsOr false (Explained 1 q) (advance_pop false reloaded)
pieces-Explained_example =
    pieces-Explained false 1 (silent ∷ pushed 7 ∷ silent ∷ silent ∷ silent ∷ []) reloaded
      events_reloaded

empty-IsQueue : IsQueue 1 empty []
unfolding new_spsc new
empty-IsQueue = Yields-done (new_spsc-IsQueue 1 (omega arith))

try_push-Pushes_example : YieldsOr false (Pushes 1 [] 7 pop_idle) (try_push false empty 7)
try_push-Pushes_example = try_push-Pushes false 1 empty [] 7 empty-IsQueue refl

abbrev queued : System ℕ
queued = system_after publishing (advance_push false publishing)

publishing-IsQueue : IsQueue 1 publishing []
unfolding new_spsc new begin_push advance_push begin_pop advance_pop is_full is_drained mask len
    write_slot take_slot increment wrapping_sub
publishing-IsQueue = quiet-same 1 [] silent publishing refl (
    YieldsOr-done (
      advance_push-Explained false 1 writing []
        (begin_push-IsQueue 1 empty [] 7 empty-IsQueue refl)))

queued-IsQueue : IsQueue 1 queued (7 ∷ [])
unfolding new_spsc new begin_push advance_push begin_pop advance_pop is_full is_drained mask len
    write_slot take_slot increment wrapping_sub
queued-IsQueue =
    let (q', inv, (room, same)) : Explained 1 [] (pushed 7, queued) =
      YieldsOr-done (advance_push-Explained false 1 publishing [] publishing-IsQueue) in
    subst (IsQueue 1 queued) same inv

queued_idle : (queued.pushing ≡ push_idle) × (queued.popping ≡ pop_idle)
unfolding new_spsc new begin_push advance_push begin_pop advance_pop is_full is_drained mask len
    write_slot take_slot increment wrapping_sub
queued_idle = (refl, refl)

try_pop-Pops_example : YieldsOr false (Pops 1 (7 ∷ []) queued.pushing) (try_pop false queued)
try_pop-Pops_example = try_pop-Pops false 1 queued (7 ∷ []) queued-IsQueue (queued_idle.1)

drop_inner-Drops_example : Yields (Drops (7 ∷ [])) (drop_inner queued.inner)
drop_inner-Drops_example =
    drop_inner-Drops 1 queued (7 ∷ []) queued-IsQueue (queued_idle.0) (queued_idle.1)

-- A full ring refuses a value, and the counters go on past the largest one.
abbrev around : System ℕ
around = record {
  inner = record { head = usize_values - 1; tail = usize_values - 1; buf = none ∷ none ∷ [] };
  head_cache = usize_values - 1;
  tail_cache = usize_values - 1;
  pushing = push_idle;
  popping = pop_idle;
}

abbrev three_pushes : Outcome (Event ℕ × Event ℕ × Event ℕ)
three_pushes = try_push false around 1 >>= λ (e, s).
    try_push false s 2 >>= λ (e', s'). try_push false s' 3 >>= λ (e'', s''). done (e, e', e'')

full_refuses : three_pushes ≡ done (pushed 1, pushed 2, refused 3)
unfolding new_spsc new begin_push advance_push begin_pop advance_pop is_full is_drained mask len
    write_slot take_slot increment wrapping_sub try_push finish_push
full_refuses = refl

-- With overflow checks, the first of them panics.
around_panics : try_push true around 1 ≡ panic
unfolding new_spsc new begin_push advance_push begin_pop advance_pop is_full is_drained mask len
    write_slot take_slot increment wrapping_sub try_push finish_push
around_panics = refl

-- `push` with `SpinWait`, on the empty ring.
abbrev spinning :
    (System ℕ × Option ℕ → Outcome (Option (Unit {0}) × (System ℕ × Option ℕ)))
    → System ℕ × Option ℕ
    → Outcome (Result (Unit {0}) (Unit {0}) × (System ℕ × Option ℕ))
spinning op st = spin_wait op (λ st'. st') false 1 st >>= λ (v, st'). done (ok v, st')

spinning-Answered :
    Yields
      (λ (r, st). Answered false (attempt false) (empty, some 7) r st)
      (spinning (attempt false) (empty, some 7))
unfolding begin_push advance_push is_full mask len write_slot increment wrapping_sub try_push
    finish_push attempt spin_wait retry
spinning-Answered = yields (returned refl)

push-IsPushed_example : Yields (IsPushed 1 [] 7) (push false spinning empty 7)
push-IsPushed_example =
    push-IsPushed false 1 spinning empty [] 7 empty-IsQueue refl spinning-Answered
