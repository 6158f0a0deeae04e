-- ===== src/Structures/LinkedList/Threads.antt =====
-- The threads of `Multithreaded Datastructures/linked-list.c`: `addToList`, which locks the nodes hand over
-- hand, one statement that touches shared memory at a time. `malloc` is what it returns for a heap and
-- for the first address behind all that were ever in use.
pub mod Invariant
pub mod Locks
pub mod Link
pub mod Steps
pub mod Counts
pub mod Laws
pub mod Progress
use c_advanced_problems.Prelude.{
  ℕ, zero, suc, ◌+◌, ◌-◌, Option, none, some, List, [], ◌∷◌, ◌++◌, if◌then◌else◌, ◌==◌,
}
use c_advanced_problems.Prelude.Tally.{put}
use c_advanced_problems.Structures.Nodes.{Node, Heap, init_node, set_next, grown}
use c_advanced_problems.Sync.Interleaving.{System}

-- `nodeList`, with the heap. `locks` are the locks of the nodes by the addresses of these, 1 where they are
-- free. `top` is the first address behind all that were ever in use, and `added` are the values in the
-- order in which they were linked, neither of which the code keeps.
pub record Shared : Type 0 where
  pub head : ℕ
  pub heap : Heap
  pub locks : ℕ → ℕ
  pub top : ℕ
  pub added : List ℕ

-- Where a thread stands in `addToList`, with the values that it is still to add, the first of which is the
-- one that it adds.
pub data Pc : Type 0 where
  next_call : (values : List ℕ) → Pc  -- Pthread_mutex_lock(current->lock), with current the head
  test_first : (current value : ℕ) (values : List ℕ) → Pc  -- if (current->next == NULL)
  new_first : (current value : ℕ) (values : List ℕ) → Pc  -- tmp = initNode(value, NULL)
  test_next : (current value : ℕ) (values : List ℕ) → Pc  -- while (current->next != NULL), and current = current->next
  lock_next : (previous current value : ℕ) (values : List ℕ) → Pc  -- Pthread_mutex_lock(current->lock)
  unlock_previous : (previous current value : ℕ) (values : List ℕ) → Pc  -- Pthread_mutex_unlock(previous->lock)
  new_last : (current value : ℕ) (values : List ℕ) → Pc  -- newNode = initNode(value, current->next)
  link : (current node value : ℕ) (values : List ℕ) → Pc  -- current->next = tmp, or newNode
  unlock_last : (current : ℕ) (values : List ℕ) → Pc  -- Pthread_mutex_unlock(current->lock)
  crashed : Pc  -- a pointer was followed that leads to no node

-- The values of `addToListWrapper` from `i` on, with `count` for the rounds that are left.
abbrev pub add_calls : (i count : ℕ) → List ℕ
add_calls i zero = []
add_calls i (suc count) = i ∷ add_calls (i + 1) count

-- `initNode`, with its lock.
abbrev pub new_node : Shared → (node value : ℕ) → (next : Option ℕ) → Shared
new_node m node value next = record m {
  heap = init_node m.heap node value next;
  locks = put m.locks node 1;
  top = grown m.top node;
}

module _ (malloc : Heap → ℕ → ℕ) where
  -- One statement; `none` where the thread waits for a lock or has made all its calls.
  unfoldable pub step : Shared → Pc → Option (Shared × Pc)
  step m (next_call []) = none
  step m (next_call (value ∷ values)) =
      if m.locks m.head == 0
      then none
      else some (
        record m { locks = put m.locks m.head (m.locks m.head - 1) },
        test_first m.head value values,
      )
  step m (test_first current value values) = elim (m.heap current) [
    | none ↦ some (m, crashed)
    | some node ↦ elim (node.next) [
      | none ↦ some (m, new_first current value values)
      | some next ↦ some (m, test_next current value values)
    ]
  ]
  step m (new_first current value values) =
      some (
        new_node m (malloc m.heap m.top) value none,
        link current (malloc m.heap m.top) value values,
      )
  step m (test_next current value values) = elim (m.heap current) [
    | none ↦ some (m, crashed)
    | some node ↦ elim (node.next) [
      | none ↦ some (m, new_last current value values)
      | some next ↦ some (m, lock_next current next value values)
    ]
  ]
  step m (lock_next previous current value values) =
      if m.locks current == 0
      then none
      else some (
        record m { locks = put m.locks current (m.locks current - 1) },
        unlock_previous previous current value values,
      )
  step m (unlock_previous previous current value values) = some (
    record m { locks = put m.locks previous (m.locks previous + 1) },
    test_next current value values,
  )
  step m (new_last current value values) = elim (m.heap current) [
    | none ↦ some (m, crashed)
    | some last ↦ some (
      new_node m (malloc m.heap m.top) value last.next,
      link current (malloc m.heap m.top) value values,
    )
  ]
  step m (link current node value values) = elim (set_next m.heap current (some node)) [
    | none ↦ some (m, crashed)
    | some heap ↦
        some (record m { heap = heap; added = m.added ++ value ∷ [] }, unlock_last current values)
  ]
  step m (unlock_last current values) =
      some (record m { locks = put m.locks current (m.locks current + 1) }, next_call values)
  step m crashed = none

-- `main`, once it has created the threads, each of which is to add some values.
abbrev pub start : (heap : Heap) (top place : ℕ) (values : ℕ → List ℕ) → System Shared Pc
start heap top place values = record {
  shared = record {
    head = place;
    heap = init_node heap place 0 none;
    locks = λ a. 1;
    top = grown top place;
    added = [];
  };
  pc = λ i. next_call (values i);
}
