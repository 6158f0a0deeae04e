-- ===== src/Structures/Queue/Threads/Counts.antt =====
-- What the threads of `queue.c` are still to link and to remove.
use c_advanced_problems.Prelude.{
  ℕ, zero, suc, ◌+◌, ◌-◌, ◌≤◌, ◌<◌, ◌≡◌, ◌≢◌, refl, ◌∙◌, some, List, [], ◌∷◌, ◌++◌, length, arith,
  length-append, if◌then◌else◌, ◌==◌, ltb, leb,
}
use c_advanced_problems.Prelude.{Bool, true, false}
use c_advanced_problems.Structures.Nodes.{Heap}
use c_advanced_problems.Structures.Queue.Threads.{
  Shared, Task, enqueue_of, dequeue_one, Pc, next_task, lock_tail, link, move_tail, unlock_tail,
  read_head, read_next, unlock_empty, move_head, unlock_head, release, crashed, step, enqueue_calls,
  dequeue_calls, enqueue_wrapper,
}

-- The sum of `f` over a list.
abbrev pub total : (f : ℕ → ℕ) → List ℕ → ℕ
total f [] = 0
total f (x ∷ xs) = f x + total f xs

-- The sum of `f` over `count` numbers from `i` on.
abbrev pub total_from : (f : ℕ → ℕ) (i count : ℕ) → ℕ
total_from f i zero = 0
total_from f i (suc count) = f i + total_from f (i + 1) count

-- How often a value is on a list.
abbrev pub count : (v : ℕ) → List ℕ → ℕ
count v = total (λ x. if x == v then 1 else 0)

pub total-append : (f : ℕ → ℕ) (xs ys : List ℕ) → total f (xs ++ ys) ≡ total f xs + total f ys
total-append f [] ys = omega arith
total-append f (x ∷ xs) ys = omega (arith, total-append f xs ys)

pub total-one : (xs : List ℕ) → total (λ _. 1) xs ≡ length xs
total-one [] = refl
total-one (x ∷ xs) = omega (arith, total-one xs)

pub total_from-one : (i count : ℕ) → total_from (λ _. 1) i count ≡ count
total_from-one i zero = refl
total_from-one i (suc count) = omega (arith, total_from-one (i + 1) count)

total_from-test :
    (v i count : ℕ)
    → total_from (λ x. if x == v then 1 else 0) i count
      ≡ (if leb i v then if ltb v (i + count) then 1 else 0 else 0)
total_from-test v i zero = ground arith
total_from-test v i (suc count) = ground (arith, total_from-test v (i + 1) count)

pub total_from-count : (v max : ℕ) → v < max → total_from (λ x. if x == v then 1 else 0) 0 max ≡ 1
total_from-count v max lt = ground (arith, total_from-test v 0 max)

-- A weight of the calls that are still to be made is one of where a thread stands: `e` is what a value
-- to link adds to the weight of the later calls, and `d` what a node to remove adds.
module _ (e : (value weight : ℕ) → ℕ) (d : (weight : ℕ) → ℕ) where
  abbrev pub of_tasks : List Task → ℕ
  of_tasks [] = 0
  of_tasks (enqueue_of value ∷ tasks) = e value (of_tasks tasks)
  of_tasks (dequeue_one ∷ tasks) = d (of_tasks tasks)

  abbrev pub of_pc : Pc → ℕ
  of_pc (next_task tasks) = of_tasks tasks
  of_pc (lock_tail node value tasks) = e value (of_tasks tasks)
  of_pc (link node value tasks) = e value (of_tasks tasks)
  of_pc (move_tail node tasks) = of_tasks tasks
  of_pc (unlock_tail tasks) = of_tasks tasks
  of_pc (read_head tasks) = d (of_tasks tasks)
  of_pc (read_next current tasks) = d (of_tasks tasks)
  of_pc (unlock_empty tasks) = of_tasks tasks
  of_pc (move_head current new_head tasks) = d (of_tasks tasks)
  of_pc (unlock_head current tasks) = of_tasks tasks
  of_pc (release current tasks) = of_tasks tasks
  of_pc crashed = 0

-- The sum of `f` over the values that the thread is still to link.
abbrev pub to_link : (f : ℕ → ℕ) → Pc → ℕ
to_link f = of_pc (λ value w. f value + w) (λ w. w)

-- How many nodes the thread is still to remove.
abbrev pub to_take : Pc → ℕ
to_take = of_pc (λ value w. w) (λ w. w + 1)

-- How many values must be on the queue for the thread to find one at each call of `dequeue`.
abbrev pub needs : Pc → ℕ
needs = of_pc (λ value w. w - 1) (λ w. w + 1)

-- The thread found the queue empty, or a bad pointer.
abbrev pub is_lost : Pc → Bool
is_lost (unlock_empty tasks) = true
is_lost crashed = true
is_lost _ = false

pub step-counts :
    (malloc : Heap → ℕ → ℕ) (m m' : Shared) (p p' : Pc)
    → step malloc m p ≡ some (m', p')
    → is_lost p' ≡ false
    → (f : ℕ → ℕ)
    → (total f m'.linked + to_link f p' ≡ total f m.linked + to_link f p)
      × ((m'.taken + to_take p' ≡ m.taken + to_take p)
          × (m'.taken + needs p' + length m.linked ≤ m.taken + needs p + length m'.linked))
unfolding step
step-counts malloc m m' (next_task []) p' e l f = absurd cc
step-counts malloc m m' (next_task (enqueue_of value ∷ tasks)) p' e l f = ground arith
step-counts malloc m m' (next_task (dequeue_one ∷ tasks)) p' e l f = ground arith
step-counts malloc m m' (link node value tasks) p' e l f =
    ground (arith, total-append f m.linked (value ∷ []), length-append m.linked (value ∷ []))
step-counts malloc m m' _ p' e l f = ground arith

-- The only statement that finds the queue empty is the test of `newHead`.
pub step-not-lost :
    (malloc : Heap → ℕ → ℕ) (m m' : Shared) (p p' : Pc)
    → step malloc m p ≡ some (m', p')
    → p' ≢ crashed
    → ((current : ℕ) (tasks : List Task)
        → p ≡ read_next current tasks
        → (v : ℕ) × ((x : ℕ) × (m.heap current ≡ some (record { value = v; next = some x }))))
    → is_lost p' ≡ false
unfolding step
step-not-lost malloc m m' (next_task []) p' e ne f = absurd cc
step-not-lost malloc m m' (next_task (enqueue_of value ∷ tasks)) p' e ne f = ground arith
step-not-lost malloc m m' (next_task (dequeue_one ∷ tasks)) p' e ne f = ground arith
step-not-lost malloc m m' (read_next current tasks) p' e ne f =
    let (v, (x, k)) = f current tasks refl in ground (arith, k)
step-not-lost malloc m m' (link node value tasks) p' e ne f = ground (arith, ne)
step-not-lost malloc m m' _ p' e ne f = ground (arith, ne)

-- What `enqueueWrapper` is to link and to remove at its start.
dequeue_calls-to_link : (f : ℕ → ℕ) (count : ℕ) → to_link f (next_task (dequeue_calls count)) ≡ 0
dequeue_calls-to_link f zero = refl
dequeue_calls-to_link f (suc count) = dequeue_calls-to_link f count

dequeue_calls-to_take : (count : ℕ) → to_take (next_task (dequeue_calls count)) ≡ count
dequeue_calls-to_take zero = refl
dequeue_calls-to_take (suc count) = omega (arith, dequeue_calls-to_take count)

dequeue_calls-needs : (count : ℕ) → needs (next_task (dequeue_calls count)) ≡ count
dequeue_calls-needs zero = refl
dequeue_calls-needs (suc count) = omega (arith, dequeue_calls-needs count)

enqueue_calls-to_link :
    (f : ℕ → ℕ) (i rounds : ℕ) (tasks : List Task)
    → to_link f (next_task (enqueue_calls i rounds tasks))
      ≡ total_from f i rounds + to_link f (next_task tasks)
enqueue_calls-to_link f i zero tasks = omega arith
enqueue_calls-to_link f i (suc rounds) tasks =
    omega (arith, enqueue_calls-to_link f (i + 1) rounds tasks)

enqueue_calls-to_take :
    (i rounds : ℕ) (tasks : List Task)
    → to_take (next_task (enqueue_calls i rounds tasks)) ≡ to_take (next_task tasks)
enqueue_calls-to_take i zero tasks = refl
enqueue_calls-to_take i (suc rounds) tasks = enqueue_calls-to_take (i + 1) rounds tasks

enqueue_calls-needs :
    (i rounds : ℕ) (tasks : List Task)
    → needs (next_task (enqueue_calls i rounds tasks)) ≡ needs (next_task tasks) - rounds
enqueue_calls-needs i zero tasks = omega arith
enqueue_calls-needs i (suc rounds) tasks = omega (arith, enqueue_calls-needs (i + 1) rounds tasks)

pub enqueue_wrapper-to_link :
    (f : ℕ → ℕ) (max count : ℕ)
    → to_link f (next_task (enqueue_wrapper max count)) ≡ total_from f 0 max
enqueue_wrapper-to_link f max count =
    omega
      (arith, enqueue_calls-to_link f 0 max (dequeue_calls count), dequeue_calls-to_link f count)

pub enqueue_wrapper-to_take :
    (max count : ℕ) → to_take (next_task (enqueue_wrapper max count)) ≡ count
enqueue_wrapper-to_take max count =
    enqueue_calls-to_take 0 max (dequeue_calls count) ∙ dequeue_calls-to_take count

pub enqueue_wrapper-needs :
    (max count : ℕ) → count ≤ max → needs (next_task (enqueue_wrapper max count)) ≡ 0
enqueue_wrapper-needs max count le =
    omega (arith, enqueue_calls-needs 0 max (dequeue_calls count), dequeue_calls-needs count)
