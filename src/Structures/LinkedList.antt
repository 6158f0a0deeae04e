-- ===== src/Structures/LinkedList.antt =====
-- `Multithreaded Datastructures/linked-list.c`: a list of nodes behind a dummy node. Here the calls
-- of `addToList` run one after the other; Threads has them with the locks of the nodes.
pub mod Append
pub mod Threads
use c_advanced_problems.Prelude.{ℕ, zero, suc, Option, none, some}
use c_advanced_problems.Structures.Nodes.{Heap, init_node, set_next}

-- `nodeList`, and the heap it lives in.
pub record NodeList : Type 0 where
  pub head : ℕ
  pub heap : Heap

-- `initList`, with `place` the address of the dummy node.
abbrev pub init_list : (heap : Heap) → (place : ℕ) → NodeList
init_list heap place = record { head = place; heap = init_node heap place 0 none }

-- `while (current->next != NULL)`: the node it stops at. `none` where a pointer is followed that leads
-- to no node, or where the fuel runs out.
pub walk : (fuel : ℕ) → Heap → (current : ℕ) → Option ℕ
walk zero heap current = none
walk (suc fuel) heap current = elim (heap current) [
  | none ↦ none
  | some node ↦ elim node.next [ none ↦ some current | some next ↦ walk fuel heap next ]
]

-- A new node at `place`, with `next`, and `current->next = newNode`.
pub insert_after : NodeList → (current place value : ℕ) → (next : Option ℕ) → Option NodeList
insert_after list current place value next =
    elim (set_next (init_node list.heap place value next) current (some place)) [
      | none ↦ none
      | some heap ↦ some (record list { heap = heap })
    ]

-- `addToList`. After the loop it inserts before `current->next`.
pub add_to_list : (fuel : ℕ) → NodeList → (place value : ℕ) → Option NodeList
add_to_list fuel list place value = elim (list.heap list.head) [
  | none ↦ none
  | some head ↦ elim head.next [
    | none ↦ insert_after list list.head place value none
    | some next ↦ elim (walk fuel list.heap list.head) [
      | none ↦ none
      | some current ↦ elim (list.heap current) [
        | none ↦ none
        | some last ↦ insert_after list current place value last.next
      ]
    ]
  ]
]
