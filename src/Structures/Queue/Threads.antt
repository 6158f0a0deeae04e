-- ===== src/Structures/Queue/Threads.antt =====
-- The threads of `Multithreaded Datastructures/queue.c`: `enqueue` and `dequeue` under their two locks,
-- one statement that touches shared memory at a time. `malloc` is what it returns for a heap and
-- for the first address behind all that were ever in use.
pub mod Invariant
pub mod Locks
pub mod Enqueue
pub mod Dequeue
pub mod Steps
pub mod Laws
pub mod Counts
pub mod Paid
pub mod Progress
pub mod Ends
use c_advanced_problems.Prelude.{
  ℕ, zero, suc, ◌+◌, ◌-◌, Option, none, some, List, [], ◌∷◌, ◌++◌, if◌then◌else◌, ◌==◌, ltb,
}
use c_advanced_problems.Prelude.Tally.{put}
use c_advanced_problems.Structures.Nodes.{Node, Heap, init_node, set_next, grown}
use c_advanced_problems.Structures.Queue
use c_advanced_problems.Sync.Interleaving.{System}

-- `queue`, with the locks as 1 where they are free, and the heap. `top` is the first address behind
-- all that were ever in use, `linked` are the values in the order in
-- which they were linked, and `taken` is how many were removed, none of which the code keeps.
pub record Shared : Type 0 where
  pub head : ℕ
  pub tail : ℕ
  pub headlock : ℕ
  pub taillock : ℕ
  pub heap : Heap
  pub top : ℕ
  pub linked : List ℕ
  pub taken : ℕ

-- A call of `enqueue` or of `dequeue`.
pub data Task : Type 0 where
  enqueue_of : (value : ℕ) → Task
  dequeue_one : Task

-- Where a thread stands, with its variables and the calls that it is still to make.
pub data Pc : Type 0 where
  next_task : (tasks : List Task) → Pc  -- enqueue: initNode; dequeue: Pthread_mutex_lock(&q->headlock)
  lock_tail : (node value : ℕ) (tasks : List Task) → Pc  -- Pthread_mutex_lock(&q->taillock)
  link : (node value : ℕ) (tasks : List Task) → Pc  -- q->tail->next = tmp
  move_tail : (node : ℕ) (tasks : List Task) → Pc  -- q->tail = tmp
  unlock_tail : (tasks : List Task) → Pc  -- Pthread_mutex_unlock(&q->taillock)
  read_head : (tasks : List Task) → Pc  -- current = q->head
  read_next : (current : ℕ) (tasks : List Task) → Pc  -- newHead = current->next, and its test
  unlock_empty : (tasks : List Task) → Pc  -- Pthread_mutex_unlock(&q->headlock), where it is NULL
  move_head : (current new_head : ℕ) (tasks : List Task) → Pc  -- q->head = newHead
  unlock_head : (current : ℕ) (tasks : List Task) → Pc  -- Pthread_mutex_unlock(&q->headlock)
  release : (current : ℕ) (tasks : List Task) → Pc  -- free(current)
  crashed : Pc  -- a pointer was followed that leads to no node

-- The first loop of `enqueueWrapper` from `i` on, with its calls that are left, and its second one.
abbrev pub enqueue_calls : (i count : ℕ) → List Task → List Task
enqueue_calls i zero tasks = tasks
enqueue_calls i (suc count) tasks = enqueue_of i ∷ enqueue_calls (i + 1) count tasks

abbrev pub dequeue_calls : (count : ℕ) → List Task
dequeue_calls zero = []
dequeue_calls (suc count) = dequeue_one ∷ dequeue_calls count

-- `enqueueWrapper`, with `max` for MAX and `count` for DEQUEUE.
abbrev pub enqueue_wrapper : (max count : ℕ) → List Task
enqueue_wrapper max count = enqueue_calls 0 max (dequeue_calls count)

module _ (malloc : Heap → ℕ → ℕ) where
  -- One statement; `none` where the thread waits for a lock or has made all its calls.
  unfoldable pub step : Shared → Pc → Option (Shared × Pc)
  step m (next_task []) = none
  step m (next_task (enqueue_of value ∷ tasks)) =
      let node = malloc m.heap m.top in
      some (
        record m { heap = init_node m.heap node value none; top = grown m.top node },
        lock_tail node value tasks,
      )
  step m (next_task (dequeue_one ∷ tasks)) =
      if m.headlock == 0
      then none
      else some (record m { headlock = m.headlock - 1 }, read_head tasks)
  step m (lock_tail node value tasks) =
      if m.taillock == 0
      then none
      else some (record m { taillock = m.taillock - 1 }, link node value tasks)
  step m (link node value tasks) = elim (set_next m.heap m.tail (some node)) [
    | none ↦ some (m, crashed)
    | some heap ↦
        some (record m { heap = heap; linked = m.linked ++ value ∷ [] }, move_tail node tasks)
  ]
  step m (move_tail node tasks) = some (record m { tail = node }, unlock_tail tasks)
  step m (unlock_tail tasks) = some (record m { taillock = m.taillock + 1 }, next_task tasks)
  step m (read_head tasks) = some (m, read_next m.head tasks)
  step m (read_next current tasks) = elim (m.heap current) [
    | none ↦ some (m, crashed)
    | some node ↦ elim (node.next) [
      | none ↦ some (m, unlock_empty tasks)
      | some new_head ↦ some (m, move_head current new_head tasks)
    ]
  ]
  step m (unlock_empty tasks) = some (record m { headlock = m.headlock + 1 }, next_task tasks)
  step m (move_head current new_head tasks) =
      some (record m { head = new_head; taken = m.taken + 1 }, unlock_head current tasks)
  step m (unlock_head current tasks) =
      some (record m { headlock = m.headlock + 1 }, release current tasks)
  step m (release current tasks) =
      some (record m { heap = put m.heap current none }, next_task tasks)
  step m crashed = none

-- `main`, once it has created the threads, each of which is to make its calls.
abbrev pub start : (heap : Heap) (top place : ℕ) (tasks : ℕ → List Task) → System Shared Pc
start heap top place tasks = record {
  shared = record {
    head = place;
    tail = place;
    headlock = 1;
    taillock = 1;
    heap = init_node heap place 0 none;
    top = grown top place;
    linked = [];
    taken = 0;
  };
  pc = λ i. next_task (tasks i);
}
