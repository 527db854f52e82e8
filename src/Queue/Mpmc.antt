-- ===== src/Queue/Mpmc.antt =====
-- algors-queue/src/mpmc.rs and the slots of algors-queue/src/slot.rs: the queue of many producers and
-- many consumers, on a target of 64 bits. The state is the shared ring and, for each thread, the call
-- that it is in; a call is cut at its accesses to what is shared, and the pieces of all calls come in any
-- order. `compare_exchange_weak` may fail for no reason (`weak`). A `Relaxed` load of a counter may return
-- an older value of it: `lag` says how much older, and is any number, for counters that have not wrapped around. A load of a sequence number sees the
-- last store, as `Acquire` and `Release` are there for. `Backoff`, which is local to a call and only
-- waits, is left out.
pub mod Steps
pub mod Invariant
pub mod Slots
pub mod Claims
pub mod Exact
pub mod Seen
pub mod Pieces
pub mod Start
pub mod History
pub mod Runs
pub mod Fifo
pub mod Drop
pub mod Alone
pub mod Wait
pub mod Waited
mod Tests
use Prim.Native.Nat.{bit_and}
use algors.Prelude.{
  ℕ, zero, suc, ◌+◌, ◌-◌, ◌%◌, ◌^◌, ◌≤◌, List, [], ◌∷◌, Option, none, some, Bool, true, false, ◌||◌,
  not, Outcome, done, panic, undefined, exhausted, ◌>>=◌, ltb, leb, ◌==◌, if◌then◌else◌, length,
  get_elem?, set,
}
use algors.Prelude.Indices.{usize_values, wrapping_sub, wrapping_add}

-- `SequencedSlot<T>`. The value is `none` while there is none: not yet written, or read out.
pub record Slot {ℓ} (A : Type ℓ) : Type ℓ where
  pub seq : ℕ
  pub value : Option A

-- `Inner<T>`
pub record Inner {ℓ} (A : Type ℓ) : Type ℓ where
  pub buf : List (Slot A)
  pub head : ℕ
  pub tail : ℕ

-- Where a thread is: outside of a call; in `try_push`, to load the tail, to load the sequence number of the
-- slot of `idx`, to claim the slot, to write it, to publish it; in `try_pop`, to load the head, to load the
-- sequence number, to claim the slot, to read it, to release it. `push_publish` keeps the value, which the
-- code has moved into the slot by then, for the event only.
pub data Call {ℓ} (A : Type ℓ) : Type ℓ where
  outside : Call A
  push_load : A → Call A
  push_look : A → ℕ → Call A
  push_claim : A → ℕ → Call A
  push_write : A → ℕ → Call A
  push_publish : A → ℕ → Call A
  pop_load : Call A
  pop_look : ℕ → Call A
  pop_claim : ℕ → Call A
  pop_read : ℕ → Call A
  pop_release : ℕ → A → Call A

-- What a piece of a call makes known: that it claimed the next slot, with the value to push or to pop one;
-- or the result of a call that ends with it, with the index for a call that moved a value.
pub data Event {ℓ} (A : Type ℓ) : Type ℓ where
  silent : Event A
  claimed : A → Event A
  reserved : Event A
  pushed : ℕ → A → Event A
  refused : A → Event A
  popped : ℕ → A → Event A
  found_empty : Event A

-- `a + b`, with or without overflow checks.
unfoldable pub add : Bool → ℕ → ℕ → Outcome ℕ
add checks a b =
    if ltb (a + b) usize_values
    then done (a + b)
    else (if checks then panic else done ((a + b) % usize_values))

-- `diff < 0`, for `diff as isize`.
unfoldable pub is_negative : ℕ → Bool
is_negative diff = leb (2 ^ 63) diff

module _ {ℓ} {A : Type ℓ} where
  unfoldable pub len : Inner A → ℕ
  len inner = length inner.buf

  unfoldable pub mask : Inner A → ℕ → ℕ
  mask inner num = bit_and num (length inner.buf - 1)

  -- The loop of `Inner::new`, from `i` on and with `n` rounds to go.
  unfoldable pub new_slots : ℕ → ℕ → List (Slot A)
  new_slots zero i = []
  new_slots (suc n) i = record { seq = i; value = none } ∷ new_slots n (i + 1)

  -- `Inner::new`
  unfoldable pub new : ℕ → Outcome (Inner A)
  new pow =
      if ltb pow 64
      then done (record { buf = new_slots (2 ^ pow) 0; head = 0; tail = 0 })
      else panic

  -- A slot by its index; an index out of bounds panics.
  unfoldable pub slot_at : Inner A → ℕ → Outcome (Slot A)
  slot_at inner i = elim (get_elem? inner.buf i) [ none ↦ panic | some s ↦ done s ]

  unfoldable pub store_slot : Inner A → ℕ → Slot A → Inner A
  store_slot inner i s = record inner { buf = set inner.buf i s }

  -- `slot.seq.store`
  unfoldable pub store_seq : Inner A → ℕ → ℕ → Outcome (Inner A)
  store_seq inner i n = slot_at inner i >>= λ s. done (store_slot inner i (record s { seq = n }))

  -- A write to a slot, which does not drop what is there.
  unfoldable pub write_slot : Inner A → ℕ → A → Outcome (Inner A)
  write_slot inner i v =
      slot_at inner i >>= λ s. done (store_slot inner i (record s { value = some v }))

  -- `assume_init_read` and `assume_init_drop`, which are undefined on a slot with no value.
  unfoldable pub take_slot : Inner A → ℕ → Outcome (A × Inner A)
  take_slot inner i = slot_at inner i >>= λ s. elim s.value [
    | none ↦ undefined
    | some v ↦ done (v, store_slot inner i (record s { value = none }))
  ]

  -- What `try_push` does with the sequence number that it loaded.
  unfoldable pub judge_push : Inner A → A → ℕ → ℕ → Event A × Inner A × Call A
  judge_push inner val idx seq =
      let diff = wrapping_sub seq idx in
      if diff == 0
      then (silent, inner, push_claim val idx)
      else if is_negative diff
      then (refused val, inner, outside)
      else (silent, inner, push_load val)

  -- The compare-exchange of the tail.
  unfoldable pub claim_tail : Bool → ℕ → Inner A → A → ℕ → ℕ → Event A × Inner A × Call A
  claim_tail weak lag inner val idx next =
      if weak || not (inner.tail == idx)
      then (silent, inner, push_look val (inner.tail - lag))
      else (claimed val, record inner { tail = next }, push_write val idx)

  -- What `try_pop` does with the sequence number that it loaded.
  unfoldable pub judge_pop : Inner A → ℕ → ℕ → ℕ → Event A × Inner A × Call A
  judge_pop inner idx next seq =
      let diff = wrapping_sub seq next in
      if diff == 0
      then (silent, inner, pop_claim idx)
      else if is_negative diff
      then (found_empty, inner, outside)
      else (silent, inner, pop_load)

  -- The compare-exchange of the head.
  unfoldable pub claim_head : Bool → ℕ → Inner A → ℕ → ℕ → Event A × Inner A × Call A
  claim_head weak lag inner idx next =
      if weak || not (inner.head == idx)
      then (silent, inner, pop_look (inner.head - lag))
      else (reserved, record inner { head = next }, pop_read idx)

  -- The next piece of a call: `try_push` and `try_pop`.
  unfoldable pub advance : Bool → Bool → ℕ → Inner A → Call A → Outcome (Event A × Inner A × Call A)
  advance checks weak lag inner outside = done (silent, inner, outside)
  advance checks weak lag inner (push_load val) =
      done (silent, inner, push_look val (inner.tail - lag))
  advance checks weak lag inner (push_look val idx) =
      slot_at inner (mask inner idx) >>= λ s. done (judge_push inner val idx s.seq)
  advance checks weak lag inner (push_claim val idx) =
      add checks idx 1 >>= λ next. done (claim_tail weak lag inner val idx next)
  advance checks weak lag inner (push_write val idx) =
      write_slot inner (mask inner idx) val >>= λ inner'.
      done (silent, inner', push_publish val idx)
  advance checks weak lag inner (push_publish val idx) = add checks idx 1 >>= λ next.
      store_seq inner (mask inner idx) next >>= λ inner'. done (pushed idx val, inner', outside)
  advance checks weak lag inner pop_load = done (silent, inner, pop_look (inner.head - lag))
  advance checks weak lag inner (pop_look idx) = slot_at inner (mask inner idx) >>= λ s.
      add checks idx 1 >>= λ next. done (judge_pop inner idx next s.seq)
  advance checks weak lag inner (pop_claim idx) =
      add checks idx 1 >>= λ next. done (claim_head weak lag inner idx next)
  advance checks weak lag inner (pop_read idx) =
      take_slot inner (mask inner idx) >>= λ (val, inner').
      done (silent, inner', pop_release idx val)
  advance checks weak lag inner (pop_release idx val) = add checks idx (len inner) >>= λ next.
      store_seq inner (mask inner idx) next >>= λ inner'. done (popped idx val, inner', outside)

  abbrev pub is_over : Call A → Bool
  is_over outside = true
  is_over _ = false

  -- The rest of a call that no piece of another call comes between, with no spurious failure and no late
  -- load, on fuel.
  unfoldable pub finish : ℕ → Bool → Inner A → Call A → Outcome (Event A × Inner A)
  finish zero checks inner c = exhausted
  finish (suc fuel) checks inner c = advance checks false 0 inner c >>= λ (e, inner', c').
      elim (is_over c') [ true ↦ done (e, inner') | false ↦ finish fuel checks inner' c' ]

  -- `try_push` and `try_pop`, one call at a time, of five pieces at most.
  unfoldable pub try_push : Bool → Inner A → A → Outcome (Event A × Inner A)
  try_push checks inner val = finish 5 checks inner (push_load val)

  unfoldable pub try_pop : Bool → Inner A → Outcome (Event A × Inner A)
  try_pop checks inner = finish 5 checks inner pop_load

  -- The loop of `Drop for Inner`, from `i` on and with `n` rounds to go, with the values that it drops.
  unfoldable pub drop_loop : Bool → ℕ → ℕ → ℕ → Inner A → Outcome (List A × Inner A)
  drop_loop checks zero i h inner = done ([], inner)
  drop_loop checks (suc n) i h inner =
      let idx = wrapping_add h i in
      slot_at inner (mask inner idx) >>= λ s. add checks idx 1 >>= λ next. elim (s.seq == next) [
        | true ↦ take_slot inner (mask inner idx) >>= λ (val, inner').
            drop_loop checks n (i + 1) h inner' >>= λ (vals, inner''). done (val ∷ vals, inner'')
        | false ↦ drop_loop checks n (i + 1) h inner
      ]

  -- `Drop for Inner`, for a type of values that has a destructor.
  unfoldable pub drop_inner : Bool → Inner A → Outcome (List A × Inner A)
  drop_inner checks inner = drop_loop checks (wrapping_sub inner.tail inner.head) 0 inner.head inner

-- The ring, and the calls that the threads are in.
pub record System {ℓ} (A : Type ℓ) : Type ℓ where
  pub inner : Inner A
  pub calls : ℕ → Call A

module _ {ℓ} {A : Type ℓ} where
  -- `new_mpmc`
  unfoldable pub new_mpmc : ℕ → Outcome (System A)
  new_mpmc pow = new pow >>= λ inner. done (record { inner = inner; calls = λ i. outside })

  -- Thread `i` goes on to `c`.
  abbrev pub assign : (ℕ → Call A) → ℕ → Call A → ℕ → Call A
  assign calls i c j = if i == j then c else calls j
