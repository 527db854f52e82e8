-- ===== src/Lib.antt =====
-- A verification library for algors, a Rust workspace of data structures. Its crates are independent
-- but for shared helpers: a binary heap, a radix tree, disjoint sets, and queues between threads.
--
-- Which file models what, with paths from the root of the repository:
--
-- Heap: `Heap<T, F>` of algors-heap/src/heap.rs. `data` is a list and the comparison a function; `push`,
--   `pop`, `peek`, `sift_up` and `sift_down` are functions of these names, and their loops take fuel: the
--   length of the vector, or one more, which is enough as the index falls or rises in each round.
--   Heap/Order says what a heap is; Heap/Up and Heap/Down follow one misplaced entry; Heap/Pop and
--   Heap/Drain are about a single `pop` and about a client that sorts.
-- Trie: algors-trie. Trie/Lcp is `lcp` of algors-trie/src/util.rs, with its overlapping word reads as a
--   little-endian target does them. Trie/Bitmap is the bitmap of algors-trie/src/node.rs, with `child_pos_from_byte`,
--   `child_idx_from_pos` and the bit updates, and Trie/Node the nodes: values, prefixes, the child vector
--   (`BoundedRawVec::get`, `insert` and `remove`) and the operations on children. Trie/Node/Valid says when
--   a node is well formed, Trie/Node/Update what the operations do to the children. Trie/Map is `TrieMap` of
--   algors-trie/src/trie.rs: `insert`, `get`, `contains`, `clear`, Trie/Prefix its
--   `find_prefix_node`, and Trie/Visit its `for_each_prefix` and `SuffixRef`, where the calls of the closure
--   are a list. Trie/Remove is its `remove`, `remove_prefix`, `compress` and `get_mut`: the stack of raw
--   pointers is a list of the nodes above, and Trie/Remove/Trail and Trie/Remove/Focus say what a change below
--   them makes of the tree; Trie/Remove/Histories is about calls of all kinds in any order. A loop down the
--   tree takes fuel, the length of the key and two more: each round but the first uses a byte of the key.
--   Trie/Layout is the 16 bytes of a prefix, algors-trie/src/prefix.rs, on a little-endian target of 64 bits;
--   in the tree, a prefix is the byte string that it stands for, and `new_prefix` has the
--   panic of `Prefix::new` and `Prefix::from_slices` at 2^32 bytes. Trie/Node/Fits says that no way down a tree
--   spells that many, and Trie/Remove/Placed where a node stands on its way. Trie/Iter is the iterators over the child
--   vector, `Iter` and `IterMut` of algors-trie/src/util.rs. Trie/RawVec is the vector itself, `BoundedRawVec` of
--   that file: the pointer with the tag of the capacity in its last bits, and the block on the heap, on which
--   `insert`, `remove` and `get` do what the node's operations do on a list; Trie/RawVec/Pointer is about the
--   pointer, and Trie/RawVec/Correct about the operations. Trie/Lookup is the specification, the value under
--   a byte string by recursion on the tree. Trie/Keyed has the lemmas on lists in the order of a key, Trie/Bytes
--   the byte strings.
-- UnionFind: `UnionFind` of algors-union-find/src/union_find.rs. UnionFind/Forest says which partition the
--   entries stand for, by the root of each element; UnionFind/Find and UnionFind/Union are about the
--   operations, UnionFind/Merge about a root that becomes a child. Both loops of `find` take as fuel one
--   more than the number of elements, and a path is shorter than the set it lies in is large.
-- Queue: algors-queue. Queue/Spsc is the queue of one producer and one consumer of
--   algors-queue/src/spsc.rs. A state is the shared ring with the locals of both threads, and a call is
--   cut at its accesses to what the other thread writes: `begin_push` and `advance_push` are the pieces
--   of `try_push`, `begin_pop` and `advance_pop` those of `try_pop`. Queue/Spsc/Steps lets the pieces come
--   in any order, Queue/Spsc/Ring says what the slots hold, and Queue/Spsc/Invariant what holds at any
--   time; Queue/Spsc/Push and Queue/Spsc/Pop are about single pieces, Queue/Spsc/TryPush and
--   Queue/Spsc/TryPop about whole calls, Queue/Spsc/Fifo about runs, and Queue/Spsc/Drop about `Drop for
--   Inner`. Queue/Spsc/Wait is `push` and `pop`, which retry by a waiter that is a parameter, and
--   Queue/Spsc/Waited is about `push`. A call takes as fuel the three pieces that can follow its first one.
--   Queue/Mpmc is the queue of many producers and consumers, algors-queue/src/mpmc.rs with the slots of
--   algors-queue/src/slot.rs. A state is the shared ring and the call that each thread is in; `advance` is the
--   next piece of a call, with a spurious failure of the compare-exchange and a late load of a counter as its
--   parameters. Queue/Mpmc/Steps lets the pieces of all calls come in any order, and Queue/Mpmc/Invariant says
--   what holds at any time; Queue/Mpmc/Slots, Queue/Mpmc/Claims and Queue/Mpmc/Pieces are about single pieces,
--   Queue/Mpmc/Runs, Queue/Mpmc/History and Queue/Mpmc/Fifo about runs, Queue/Mpmc/Alone about a call that is
--   not interrupted, whose fuel is its five pieces, and Queue/Mpmc/Drop about `Drop for Inner`. Queue/Mpmc/Wait
--   is `push` and `pop`, and Queue/Mpmc/Waited is about them. A position is compared with an older one by the
--   sign of their difference, so the theorems ask for counters below half of the values of a word, and the
--   ring for two slots: with one, the number of a published value is that of a free slot.
--   `usize` has 64 bits, and the parameter `checks` says whether `+` is checked for overflow.
-- Utils: algors-utils. Utils/Backoff is algors-utils/src/backoff.rs, where a pause is what it does. Utils/Waiter
--   is algors-utils/src/waiter.rs: an operation that is waited for is a function on a state of all threads, and
--   what the others do during a pause, or until a wait on the condition variable returns, is a parameter. The
--   loops take fuel, one for each call of the operation; Utils/Waiter/Results is about what they return.
-- Prelude: outcomes of a Rust call (a value, a panic, undefined behaviour, no fuel left), lists, words,
--   bits and signed integers over native numbers.
--
-- Not modelled: allocation, layouts of nodes, pointer tags and `Drop` of nodes, since a value of the model owns
-- what the pointers refer to; vectors of elements that have no size; memory accesses in another order
-- than one after another, but for late loads of the counters of algors-queue/src/mpmc.rs; poisoned mutexes. Vectors are shorter than 2^63, as Rust has it, so that sizes and
-- indices are exact.
pub mod Prelude
pub mod Heap
pub mod Queue
pub mod Trie
pub mod UnionFind
pub mod Utils
