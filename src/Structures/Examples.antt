-- ===== src/Structures/Examples.antt =====
-- The shared structures at small inputs.
use c_advanced_problems.Prelude.{
  ◌+◌, ◌≤◌, ◌≡◌, refl, none, List, [], ◌∷◌, ◌==◌, if◌then◌else◌, arith, ℕ, ◌≢◌, ◌*◌, length, true,
  dec_lt, ◌<◌, zero, suc, leb,
}
use c_advanced_problems.Structures.SloppyCounter
use c_advanced_problems.Structures.SloppyCounter.Threads.{printed}
use c_advanced_problems.Structures.SloppyCounter.Threads.Laws.{
  ended as ended_sloppy, sloppy_main-prints,
}
use c_advanced_problems.Structures.Nodes.{Heap}
use c_advanced_problems.Structures.Queue.Threads.{next_task, crashed, Task, enqueue_of, dequeue_one}
use c_advanced_problems.Structures.Queue.Threads.Laws.{reached, Ordered, threads-fifo}
use c_advanced_problems.Structures.Queue.Threads.Counts.{count}
use c_advanced_problems.Structures.Queue.Threads.Ends.{ended, main-counts}
use c_advanced_problems.Structures.LinkedList.Threads.Counts.{to_link}
use c_advanced_problems.Prelude.Tally.{tally}
use c_advanced_problems.Structures.LinkedList.Threads.{
  add_calls, step as list_step, crashed as stuck,
}
use c_advanced_problems.Structures.LinkedList.Threads.Laws.{
  reached as reached_list, Ordered as OrderedList, hand_over_hand-Ordered,
}
use c_advanced_problems.Structures.LinkedList.Threads.Progress.{hand_over_hand-Progress}
use c_advanced_problems.Sync.Interleaving.{run, turn}
use c_advanced_problems.Sync.Termination.{can_step}

abbrev nothing : Heap
nothing a = none

-- One thread alone: its 100 increments are all counted.
one_thread_exact :
    SloppyCounter.get (
      SloppyCounter.increment_all
        (SloppyCounter.init SloppyCounter.default_threshold)
        (SloppyCounter.increment_wrapper 3))
    ≡ 100
unfolding SloppyCounter.increment_all SloppyCounter.increment
one_thread_exact = refl

-- `malloc` grows the memory at each call.
abbrev next_address : Heap → ℕ → ℕ
next_address heap top = top

-- Thread 0 enqueues 5 and dequeues, while thread 1 enqueues 6.
abbrev two_tasks : ℕ → List Task
two_tasks i = if i == 0 then enqueue_of 5 ∷ dequeue_one ∷ [] else enqueue_of 6 ∷ []

-- Thread 1 has linked its node and has not moved the tail, and thread 0 waits.
threads-fifo_example :
    ((reached next_address nothing 10 10 two_tasks 2 (0 ∷ 1 ∷ 1 ∷ 1 ∷ 0 ∷ [])).pc 0 ≢ crashed)
    × (((reached next_address nothing 10 10 two_tasks 2 (0 ∷ 1 ∷ 1 ∷ 1 ∷ 0 ∷ [])).shared.taken
          ≤ length
              (reached next_address nothing 10 10 two_tasks 2
                (0 ∷ 1 ∷ 1 ∷ 1 ∷ 0 ∷ [])).shared.linked)
        × Ordered (reached next_address nothing 10 10 two_tasks 2 (0 ∷ 1 ∷ 1 ∷ 1 ∷ 0 ∷ [])).shared)
threads-fifo_example =
    threads-fifo next_address nothing 10 10 two_tasks 2 (0 ∷ 1 ∷ 1 ∷ 1 ∷ 0 ∷ [])
      (λ h top empty. empty top (omega arith)) (λ a h. refl) 0 (omega arith)

-- Two threads that enqueue 0 and 1 each and dequeue once.
main-counts_example :
    ((ended next_address nothing 10 10 2 2 1 (0 ∷ 1 ∷ [])).pc 1 ≡ next_task [])
    × ((count 1 (ended next_address nothing 10 10 2 2 1 (0 ∷ 1 ∷ [])).shared.linked ≡ 2)
        × ((length (ended next_address nothing 10 10 2 2 1 (0 ∷ 1 ∷ [])).shared.linked ≡ 2 * 2)
            × ((ended next_address nothing 10 10 2 2 1 (0 ∷ 1 ∷ [])).shared.taken ≡ 2 * 1)))
main-counts_example =
    main-counts next_address nothing 10 10 2 2 1 (0 ∷ 1 ∷ [])
      (λ h top empty. empty top (omega arith)) (λ a h. refl) (omega arith) 1 1 (omega arith)
      (omega arith)

-- Two threads that count three times each, with a threshold of 2: thread 1 always finds its own number,
-- thread 0 finds that of thread 1 first.
abbrev found_late : (who left : ℕ) → ℕ
found_late (suc who) left = 1
found_late zero left = if leb 2 left then 1 else 0

found_late-lt : (who left : ℕ) → found_late who left < 2
found_late-lt (suc who) left = omega arith
found_late-lt zero left = ground arith

sloppy_main-prints_example :
    (rc : ℕ) × (((ended_sloppy 2 3 2 found_late (2 ∷ 2 ∷ 0 ∷ 2 ∷ [])).pc 2 ≡ printed rc)
      × ((rc ≤ 2 * 3) × (2 * 3 + 2 ≤ rc + 2 * 2)))
sloppy_main-prints_example =
    sloppy_main-prints 2 3 2 found_late (2 ∷ 2 ∷ 0 ∷ 2 ∷ []) found_late-lt (omega arith)

-- Each thread adds 0 and 1. Thread 1 has linked its first node, and thread 0 is at the dummy node.
abbrev two_values : ℕ → List ℕ
two_values i = add_calls 0 2

hand_over_hand-Ordered_example :
    ((reached_list next_address nothing 10 10 two_values 2 (1 ∷ 1 ∷ 1 ∷ 1 ∷ 1 ∷ 0 ∷ [])).pc 0
      ≢ stuck)
    × ((count 1
              (reached_list next_address nothing 10 10 two_values 2
                (1 ∷ 1 ∷ 1 ∷ 1 ∷ 1 ∷ 0 ∷ [])).shared.added
            + tally
                (to_link 1)
                2
                (reached_list next_address nothing 10 10 two_values 2
                  (1 ∷ 1 ∷ 1 ∷ 1 ∷ 1 ∷ 0 ∷ [])).pc
          ≡ tally (count 1) 2 two_values)
        × OrderedList
            (reached_list next_address nothing 10 10 two_values 2
              (1 ∷ 1 ∷ 1 ∷ 1 ∷ 1 ∷ 0 ∷ [])).shared)
hand_over_hand-Ordered_example =
    hand_over_hand-Ordered next_address nothing 10 10 two_values 2 (1 ∷ 1 ∷ 1 ∷ 1 ∷ 1 ∷ 0 ∷ [])
      (λ h top empty. empty top (omega arith)) (λ a h. refl) 0 1 (omega arith)

-- Thread 1 holds the dummy node, for which thread 0 waits.
hand_over_hand-Progress_example :
    (j : ℕ) × (j < 2)
    × (can_step
          (list_step next_address)
          (reached_list next_address nothing 10 10 two_values 2 (1 ∷ 0 ∷ [])).shared
          ((reached_list next_address nothing 10 10 two_values 2 (1 ∷ 0 ∷ [])).pc j)
        ≡ true)
unfolding run turn list_step dec_lt
hand_over_hand-Progress_example =
    hand_over_hand-Progress next_address nothing 10 10 two_values 2 (1 ∷ 0 ∷ [])
      (λ h top empty. empty top (omega arith)) (λ a h. refl) 0 (omega arith) refl
