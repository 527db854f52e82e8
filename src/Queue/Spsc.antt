-- ===== src/Queue/Spsc.antt =====
-- algors-queue/src/spsc.rs: the queue of one producer and one consumer, on a target of 64 bits. The
-- state is the shared ring and the locals of the two threads; a thread's call is cut at its accesses to
-- what the other thread writes, and the pieces of the two calls come in any order. A load sees the last
-- store: `Acquire` and `Release` give that for the slots, and each counter has one writer. `t + 1`
-- panics at the largest counter in a build with overflow checks, and wraps around in one without.
pub mod Steps
pub mod Ring
pub mod Invariant
pub mod Push
pub mod Pop
pub mod Fifo
pub mod TryPush
pub mod TryPop
pub mod Drop
pub mod Wait
pub mod Waited
mod Tests
use Prim.Native.Nat.{bit_and}
use algors.Prelude.{
  ℕ, zero, suc, ◌+◌, ◌-◌, ◌^◌, List, [], ◌∷◌, Option, none, some, Bool, true, false, Outcome, done,
  panic, undefined, exhausted, ◌>>=◌, ltb, ◌==◌, if◌then◌else◌, length, get_elem?, set, replicate,
}
use algors.Prelude.Indices.{usize_values, wrapping_sub, wrapping_add}

-- `Inner<T>`. A slot is `none` while it holds no value: not yet written, or read out.
pub record Inner {ℓ} (A : Type ℓ) : Type ℓ where
  pub head : ℕ
  pub tail : ℕ
  pub buf : List (Option A)

-- Where the producer is in `try_push`: outside; to load the head, as the cached one says that the queue
-- is full; to write the slot; to store the tail. The last keeps the value, which the code has moved
-- into the slot by then, for the event only.
pub data Pushing {ℓ} (A : Type ℓ) : Type ℓ where
  push_idle : Pushing A
  push_reload : A → ℕ → Pushing A
  push_write : A → ℕ → Pushing A
  push_publish : A → ℕ → Pushing A

-- Where the consumer is in `try_pop`: outside; to load the tail; to read the slot; to store the head.
pub data Popping {ℓ} (A : Type ℓ) : Type ℓ where
  pop_idle : Popping A
  pop_reload : ℕ → Popping A
  pop_read : ℕ → Popping A
  pop_release : ℕ → A → Popping A

-- The ring, and `Producer` and `Consumer` with the calls that they are in.
pub record System {ℓ} (A : Type ℓ) : Type ℓ where
  pub inner : Inner A
  pub head_cache : ℕ
  pub tail_cache : ℕ
  pub pushing : Pushing A
  pub popping : Popping A

-- What a piece of a call makes known: the result of a call that ends with it.
pub data Event {ℓ} (A : Type ℓ) : Type ℓ where
  silent : Event A
  pushed : A → Event A
  refused : A → Event A
  popped : A → Event A
  found_empty : Event A

-- `n + 1`, with or without overflow checks.
unfoldable pub increment : Bool → ℕ → Outcome ℕ
increment checks n =
    if n + 1 == usize_values then (if checks then panic else done 0) else done (n + 1)

-- The test whether the queue is empty, by a given value of the tail.
unfoldable pub is_drained : ℕ → ℕ → Bool
is_drained h tail = wrapping_sub tail h == 0

module _ {ℓ} {A : Type ℓ} where
  unfoldable pub len : Inner A → ℕ
  len inner = length inner.buf

  unfoldable pub mask : Inner A → ℕ → ℕ
  mask inner num = bit_and num (length inner.buf - 1)

  -- `Inner::new`
  unfoldable pub new : ℕ → Outcome (Inner A)
  new pow =
      if ltb pow 64
      then done (record { head = 0; tail = 0; buf = replicate (2 ^ pow) none })
      else panic

  -- `new_spsc`
  unfoldable pub new_spsc : ℕ → Outcome (System A)
  new_spsc pow = new pow >>= λ inner. done (record {
    inner = inner;
    head_cache = 0;
    tail_cache = 0;
    pushing = push_idle;
    popping = pop_idle;
  })

  -- A write to a slot. An index out of bounds panics.
  unfoldable pub write_slot : Inner A → ℕ → A → Outcome (Inner A)
  write_slot inner idx v = elim (get_elem? inner.buf idx) [
    | none ↦ panic
    | some slot ↦ done (record inner { buf = set inner.buf idx (some v) })
  ]

  -- `assume_init_read` and `assume_init_drop`, which are undefined on a slot with no value.
  unfoldable pub take_slot : Inner A → ℕ → Outcome (A × Inner A)
  take_slot inner idx = elim (get_elem? inner.buf idx) [
    | none ↦ panic
    | some none ↦ undefined
    | some (some v) ↦ done (v, record inner { buf = set inner.buf idx none })
  ]

  -- The test whether the queue is full, by a given value of the head.
  unfoldable pub is_full : Inner A → ℕ → ℕ → Bool
  is_full inner t head = wrapping_sub t head == len inner

  -- `try_push` up to the first load of what the consumer writes.
  unfoldable pub begin_push : System A → A → System A
  begin_push s val =
      let t = s.inner.tail in
      if is_full s.inner t s.head_cache
      then record s { pushing = push_reload val t }
      else record s { pushing = push_write val t }

  -- The next piece of `try_push`.
  unfoldable pub advance_push : Bool → System A → Outcome (Event A × System A)
  advance_push checks s = elim s.pushing [
    | push_idle ↦ done (silent, s)
    | push_reload val t ↦
        let h = s.inner.head in
        done (
          if is_full s.inner t h
          then (refused val, record s { head_cache = h; pushing = push_idle })
          else (silent, record s { head_cache = h; pushing = push_write val t }))
    | push_write val t ↦ write_slot s.inner (mask s.inner t) val >>= λ inner.
        done (silent, record s { inner = inner; pushing = push_publish val t })
    | push_publish val t ↦ increment checks t >>= λ t'.
        done (pushed val, record s { inner = record (s.inner) { tail = t' }; pushing = push_idle })
  ]

  -- `try_pop` up to the first load of what the producer writes.
  unfoldable pub begin_pop : System A → System A
  begin_pop s =
      let h = s.inner.head in
      if is_drained h s.tail_cache
      then record s { popping = pop_reload h }
      else record s { popping = pop_read h }

  -- The next piece of `try_pop`.
  unfoldable pub advance_pop : Bool → System A → Outcome (Event A × System A)
  advance_pop checks s = elim s.popping [
    | pop_idle ↦ done (silent, s)
    | pop_reload h ↦
        let t = s.inner.tail in
        done (
          if is_drained h t
          then (found_empty, record s { tail_cache = t; popping = pop_idle })
          else (silent, record s { tail_cache = t; popping = pop_read h }))
    | pop_read h ↦ take_slot s.inner (mask s.inner h) >>= λ (val, inner).
        done (silent, record s { inner = inner; popping = pop_release h val })
    | pop_release h val ↦ increment checks h >>= λ h'.
        done (popped val, record s { inner = record (s.inner) { head = h' }; popping = pop_idle })
  ]

  abbrev pub push_over : Pushing A → Bool
  push_over push_idle = true
  push_over (push_reload val t) = false
  push_over (push_write val t) = false
  push_over (push_publish val t) = false

  abbrev pub pop_over : Popping A → Bool
  pop_over pop_idle = true
  pop_over (pop_reload h) = false
  pop_over (pop_read h) = false
  pop_over (pop_release h val) = false

  -- The rest of a call that no piece of the other thread's calls comes between, on fuel.
  unfoldable pub finish_push : ℕ → Bool → System A → Outcome (Event A × System A)
  finish_push zero checks s = exhausted
  finish_push (suc fuel) checks s = advance_push checks s >>= λ (e, s').
      elim (push_over s'.pushing) [ true ↦ done (e, s') | false ↦ finish_push fuel checks s' ]

  unfoldable pub finish_pop : ℕ → Bool → System A → Outcome (Event A × System A)
  finish_pop zero checks s = exhausted
  finish_pop (suc fuel) checks s = advance_pop checks s >>= λ (e, s'). elim (pop_over s'.popping) [
    | true ↦ done (e, s')
    | false ↦ finish_pop fuel checks s'
  ]

  -- `try_push` and `try_pop`, one call at a time. Three pieces follow the first one at most.
  unfoldable pub try_push : Bool → System A → A → Outcome (Event A × System A)
  try_push checks s val = finish_push 3 checks (begin_push s val)

  unfoldable pub try_pop : Bool → System A → Outcome (Event A × System A)
  try_pop checks s = finish_pop 3 checks (begin_pop s)

  -- The loop of `Drop for Inner`, from `i` on and with `n` rounds to go, with the values that it drops.
  unfoldable pub drop_loop : ℕ → ℕ → ℕ → Inner A → Outcome (List A × Inner A)
  drop_loop zero i h inner = done ([], inner)
  drop_loop (suc n) i h inner = take_slot inner (mask inner (wrapping_add h i)) >>= λ (val, inner').
      drop_loop n (i + 1) h inner' >>= λ (vals, inner''). done (val ∷ vals, inner'')

  -- `Drop for Inner`, for a type of values that has a destructor.
  unfoldable pub drop_inner : Inner A → Outcome (List A × Inner A)
  drop_inner inner = drop_loop (wrapping_sub inner.tail inner.head) 0 inner.head inner
