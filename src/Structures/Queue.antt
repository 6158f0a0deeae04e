-- ===== src/Structures/Queue.antt =====
-- `Multithreaded Datastructures/queue.c`: a queue of nodes behind a dummy node. Here the operations run one
-- after the other; Threads has them with `headlock` and `taillock`.
pub mod Order
pub mod Runs
pub mod Threads
use c_advanced_problems.Prelude.{ℕ, Option, none, some}
use c_advanced_problems.Structures.Nodes.{Node, Heap, init_node, set_next}
use c_advanced_problems.Prelude.Tally.{put}

-- `queue`, less the locks, and the heap it lives in.
pub record Queue : Type 0 where
  pub head : ℕ
  pub tail : ℕ
  pub heap : Heap

-- `initQueue`, with `place` the address of the dummy node.
abbrev pub init_queue : (heap : Heap) → (place : ℕ) → Queue
init_queue heap place = record { head = place; tail = place; heap = init_node heap place 0 none }

-- `none` where a pointer is followed that leads to no node.
unfoldable pub enqueue : Queue → (place : ℕ) → (value : ℕ) → Option Queue
enqueue q place value = elim (set_next (init_node q.heap place value none) q.tail (some place)) [
  | none ↦ none
  | some heap ↦ some (record q { tail = place; heap = heap })
]

unfoldable pub dequeue : Queue → Option Queue
dequeue q = elim (q.heap q.head) [
  | none ↦ none
  | some current ↦ elim current.next [
    | none ↦ some q
    | some new_head ↦ some (record q { head = new_head; heap = put q.heap q.head none })
  ]
]
