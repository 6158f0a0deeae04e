-- ===== src/Structures/Queue/Threads/Ends.antt =====
-- What `main` of `queue.c` leaves when its threads have returned.
use c_advanced_problems.Prelude.{
  ℕ, zero, suc, ◌+◌, ◌*◌, ◌≤◌, ◌<◌, ◌≡◌, refl, ◌∙◌, ap, none, List, [], ◌∷◌, ◌++◌, length, arith,
  if◌then◌else◌, ◌==◌, true, false,
}
use c_advanced_problems.Prelude.Tally.{tally, tally-none, tally-constant}
use c_advanced_problems.Structures.Nodes.{Heap}
use c_advanced_problems.Structures.Queue.Threads.Invariant.{start-IsSound}
use c_advanced_problems.Structures.Queue.Threads.Laws.{run-IsSound}
use c_advanced_problems.Structures.Queue.Threads.Counts.{
  count, total_from, total-one, total_from-one, total_from-count, to_link, to_take, needs, is_lost,
  enqueue_wrapper-to_link, enqueue_wrapper-to_take, enqueue_wrapper-needs,
}
use c_advanced_problems.Structures.Queue.Threads.{
  Shared, Task, Pc, next_task, crashed, step, start, enqueue_wrapper, enqueue_calls, dequeue_calls,
}
use c_advanced_problems.Sync.Interleaving.{System, run, run-keeps}
use c_advanced_problems.Sync.Termination.{rounds, rounds-finish_within}
use c_advanced_problems.Structures.Queue.Threads.Paid.{IsPaid, keeps-IsPaid}
use c_advanced_problems.Structures.Queue.Threads.Progress.{
  calls_left, rank, drops, is_finished, finished-stays, progress,
}

-- Threads that have returned have nothing left to do.
finished-weights : (f : ℕ → ℕ) (p : Pc) → is_finished p ≡ true → (to_link f p ≡ 0) × (to_take p ≡ 0)
finished-weights f (next_task []) e = (refl, refl)
finished-weights f (next_task (task ∷ tasks)) e = absurd cc
finished-weights f crashed e = (refl, refl)
finished-weights f _ e = absurd cc

calls_left-dequeue_calls : (count : ℕ) → calls_left (dequeue_calls count) ≡ 7 * count
unfolding calls_left
calls_left-dequeue_calls zero = refl
calls_left-dequeue_calls (suc count) = omega (arith, calls_left-dequeue_calls count)

calls_left-enqueue_calls :
    (i rounds : ℕ) (tasks : List Task)
    → calls_left (enqueue_calls i rounds tasks) ≡ 7 * rounds + calls_left tasks
unfolding calls_left
calls_left-enqueue_calls i zero tasks = omega arith
calls_left-enqueue_calls i (suc rounds) tasks =
    omega (arith, calls_left-enqueue_calls (i + 1) rounds tasks)

-- `main`, with `n` for THREADS, `max` for MAX and `removals` for DEQUEUE.
abbrev pub main : (heap : Heap) (top place max removals : ℕ) → System Shared Pc
main heap top place max removals = start heap top place (λ _. enqueue_wrapper max removals)

module _ (malloc : Heap → ℕ → ℕ)
    (fresh : (h : Heap) (top : ℕ) → ((a : ℕ) → top ≤ a → h a ≡ none) → h (malloc h top) ≡ none)
    (heap : Heap) (top place n max removals : ℕ) (enough : removals ≤ max)
    (empty : (a : ℕ) → top ≤ a → heap a ≡ none) where
  run-IsPaid :
      (f : ℕ → ℕ) (is : List ℕ)
      → IsPaid n f
          (n * total_from f 0 max)
          (n * removals)
          (run (step malloc) n is (main heap top place max removals))
  run-IsPaid f is =
      let w = next_task (enqueue_wrapper max removals) in
      run-keeps (step malloc) n (IsPaid n f (n * total_from f 0 max) (n * removals))
        (keeps-IsPaid malloc fresh n f (n * total_from f 0 max) (n * removals)) is
        (main heap top place max removals)
        (record {
          is_sound = start-IsSound heap top place n empty (λ _. enqueue_wrapper max removals);
          linked = omega (
            arith,
            tally-constant (to_link f) n w,
            ap (λ (k : ℕ). n * k) (enqueue_wrapper-to_link f max removals),
          );
          removed = omega (
            arith,
            tally-constant to_take n w,
            ap (λ (k : ℕ). n * k) (enqueue_wrapper-to_take max removals),
          );
          afforded = omega (
            arith,
            tally-constant needs n w,
            ap (λ (k : ℕ). n * k) (enqueue_wrapper-needs max removals enough),
          );
          found = λ i h. refl;
        })

  all-finish :
      (is : List ℕ) (i : ℕ)
      → i < n
      → is_finished (
          (run
              (step malloc)
              n
              (is ++ rounds n (n * (7 * (max + removals))))
              (main heap top place max removals)).pc
            i)
        ≡ true
  unfolding rank calls_left
  all-finish is =
      rounds-finish_within (step malloc) n (λ _. 0) rank
        (λ m m' p p' e. omega (arith, drops malloc m m' p p' e)) is_finished (finished-stays malloc)
        (main heap top place max removals)
        (λ js i lt f.
          progress malloc n _
            (run-IsSound malloc fresh heap top place empty (λ _. enqueue_wrapper max removals) n js)
            i lt f)
        (n * (7 * (max + removals)))
        (omega (
          arith,
          tally-constant rank n (next_task (enqueue_wrapper max removals)),
          ap (λ (k : ℕ). n * k)
              (calls_left-enqueue_calls 0 max (dequeue_calls removals)
                ∙ ap (λ (k : ℕ). 7 * max + k) (calls_left-dequeue_calls removals)
                ∙ distribute),
        ))
        is
    where
      distribute : 7 * max + 7 * removals ≡ 7 * (max + removals)
      distribute = omega arith

returned : (p : Pc) → is_finished p ≡ true → is_lost p ≡ false → p ≡ next_task []
returned (next_task []) e l = refl
returned (next_task (task ∷ tasks)) e l = absurd cc
returned crashed e l = absurd cc
returned _ e l = absurd cc

-- `main` after the turns of a schedule, and then enough rounds for all threads.
abbrev pub ended :
    (malloc : Heap → ℕ → ℕ) (heap : Heap) (top place n max removals : ℕ) (is : List ℕ)
    → System Shared Pc
ended malloc heap top place n max removals is =
    run (step malloc) n (is ++ rounds n (n * (7 * (max + removals))))
      (main heap top place max removals)

-- `n` threads that each enqueue 0 to `max - 1` and then dequeue `removals` times, with `removals` at most `max`:
-- whatever they have done before, `7 * (max + removals)` rounds of turns per thread make every thread
-- return. Then `n * max` values were linked, every value below `max` `n` times, and `n * removals` nodes
-- were removed: no call of `dequeue` found the queue empty. The heap is empty from `top` on, and `malloc` is
-- asked to return an address where nothing is, given a heap and from where on it is empty.
pub main-counts :
    (malloc : Heap → ℕ → ℕ) (heap : Heap) (top place n max removals : ℕ) (is : List ℕ)
    → ((h : Heap) (top : ℕ) → ((a : ℕ) → top ≤ a → h a ≡ none) → h (malloc h top) ≡ none)
    → ((a : ℕ) → top ≤ a → heap a ≡ none)
    → removals ≤ max
    → (i v : ℕ) → i < n
    → v < max
    → ((ended malloc heap top place n max removals is).pc i ≡ next_task [])
      × ((count v (ended malloc heap top place n max removals is).shared.linked ≡ n)
          × ((length (ended malloc heap top place n max removals is).shared.linked ≡ n * max)
              × ((ended malloc heap top place n max removals is).shared.taken ≡ n * removals)))
main-counts malloc heap top place n max removals is fresh empty enough i v lt below =
    let js = is ++ rounds n (n * (7 * (max + removals))) in
    let s = run (step malloc) n js (main heap top place max removals) in
    let ends = all-finish malloc fresh heap top place n max removals enough empty is in
    let some_value =
      run-IsPaid malloc fresh heap top place n max removals enough empty
        (λ x. if x == v then 1 else 0) js in
    let all_values =
      run-IsPaid malloc fresh heap top place n max removals enough empty (λ _. 1) js in
    (
      returned (s.pc i) (ends i lt) (some_value.found i lt),
      (
        omega (
          arith,
          some_value.linked,
          left (λ x. if x == v then 1 else 0) s.pc ends,
          ap (λ (k : ℕ). n * k) (total_from-count v max below),
        ),
        (
          omega (
            arith,
            all_values.linked,
            left (λ _. 1) s.pc ends,
            total-one s.shared.linked,
            ap (λ (k : ℕ). n * k) (total_from-one 0 max),
          ),
          omega (
            arith,
            all_values.removed,
            tally-none to_take n s.pc (λ j h. (finished-weights (λ _. 1) (s.pc j) (ends j h)).1),
          ),
        ),
      ),
    )
  where
    left :
        (f : ℕ → ℕ) (pc : ℕ → Pc)
        → ((j : ℕ) → j < n → is_finished (pc j) ≡ true)
        → tally (to_link f) n pc ≡ 0
    left f pc ends = tally-none (to_link f) n pc (λ j h. (finished-weights f (pc j) (ends j h)).0)
