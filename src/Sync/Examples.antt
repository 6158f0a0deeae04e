-- ===== src/Sync/Examples.antt =====
-- The theorems about the synchronisation problems at small systems.
use c_advanced_problems.Prelude.{
  ℕ, zero, suc, ◌≡◌, refl, Bool, true, false, ◌&&◌, List, [], ◌∷◌, ◌++◌, ◌≤◌, ◌==◌, none, some, ◌<◌,
  arith, dec_lt,
}
use c_advanced_problems.Sync.Interleaving.{turn, run}
use c_advanced_problems.Sync.ReaderWriter
use c_advanced_problems.Sync.ReaderWriter.Safety.{mutual_exclusion, no_lost_update}
use c_advanced_problems.Sync.ReaderWriter.Progress.{readers_and_writers-Progress}
use c_advanced_problems.Sync.ReaderWriterNoStarve
use c_advanced_problems.Sync.ReaderWriterNoStarve.Safety.{turnstile_shut}
use c_advanced_problems.Sync.NoStarveMutex
use c_advanced_problems.Sync.Barrier
use c_advanced_problems.Sync.Barrier.Laws.{none_passes_early}
use c_advanced_problems.Sync.Termination.{rounds}
use c_advanced_problems.Sync.NoStarveMutex.Termination.{workers_count}
use c_advanced_problems.Sync.Barrier.Termination.{children_finish}
use c_advanced_problems.Sync.GlobalLock.Termination.{global_lock_finish}
use c_advanced_problems.Sync.LockedCounter
use c_advanced_problems.Sync.LockedCounter.Laws.{increments_counted}
use c_advanced_problems.Sync.ConditionVariable
use c_advanced_problems.Sync.ConditionVariable.Laws.{last_line_follows}
use c_advanced_problems.Sync.LockOrder
use c_advanced_problems.Sync.LockOrder.Laws.{crossed-run}
use c_advanced_problems.Sync.GlobalLock
use c_advanced_problems.Sync.Rendezvous
use c_advanced_problems.Sync.Rendezvous.Laws.{after_both_before}

-- Thread 0 reads, the others write.
abbrev one_reader : ℕ → Bool
one_reader i = i == 0

mutual_exclusion_example :
    (ReaderWriter.Safety.reads
        ((run ReaderWriter.step 2 (1 ∷ 0 ∷ 0 ∷ []) (ReaderWriter.start one_reader)).pc 0)
      ≡ false)
    × (ReaderWriter.Safety.writes
          ((run ReaderWriter.step 2 (1 ∷ 0 ∷ 0 ∷ []) (ReaderWriter.start one_reader)).pc 0)
        ≡ false)
unfolding run turn dec_lt ReaderWriter.step
mutual_exclusion_example =
    mutual_exclusion 2 one_reader (1 ∷ 0 ∷ 0 ∷ []) 1 0 (omega arith) (omega arith) (omega arith)
      refl

no_lost_update_example :
    ReaderWriter.step
      (run ReaderWriter.step 2 (1 ∷ 1 ∷ []) (ReaderWriter.start one_reader)).shared
      (ReaderWriter.store 0)
    ≡ some (record { mutex = 1; writelock = 0; readers = 0; value = 1 }, ReaderWriter.print_value)
unfolding run turn dec_lt ReaderWriter.step
no_lost_update_example = no_lost_update 2 one_reader (1 ∷ 1 ∷ []) 1 0 (omega arith) refl

-- The reader waits while the writer writes.
readers_and_writers-Progress_example :
    ReaderWriter.Progress.Progress 2
      (run ReaderWriter.step 2 (1 ∷ 0 ∷ 0 ∷ []) (ReaderWriter.start one_reader))
unfolding run turn dec_lt ReaderWriter.step
readers_and_writers-Progress_example =
    readers_and_writers-Progress 2 one_reader (1 ∷ 0 ∷ 0 ∷ []) 0 (omega arith) refl

-- Threads 0 and 1 take `n` turns each, in alternation.
abbrev alternate : (n : ℕ) → List ℕ
alternate zero = []
alternate (suc n) = 0 ∷ 1 ∷ alternate n

both_workers_finish :
    (i : ℕ)
    → i < 2
    → (run NoStarveMutex.step 2 (alternate 30) NoStarveMutex.start).pc i ≡ NoStarveMutex.Pc.finished
unfolding run turn dec_lt NoStarveMutex.step
both_workers_finish zero h = refl
both_workers_finish (suc zero) h = refl
both_workers_finish (suc (suc i)) h = absurd (omega arith)

-- Worker 1 alone, up to the middle of its `critical++`.
abbrev worker_1_alone : List ℕ
worker_1_alone = 1 ∷ 1 ∷ 1 ∷ 1 ∷ 1 ∷ 1 ∷ 1 ∷ 1 ∷ 1 ∷ 1 ∷ 1 ∷ 1 ∷ []

none_passes_early_example :
    Barrier.Invariant.arrived ((run Barrier.step 2 (alternate 8) (Barrier.start 2)).pc 1) ≡ 1
unfolding run turn dec_lt Barrier.step
none_passes_early_example = none_passes_early 2 (alternate 8) 0 1 (omega arith) (omega arith) refl

-- The deadlock of `main-deadlock.c` is reached: each thread takes its first mutex.
crossed-run_example :
    run LockOrder.step 2 (1 ∷ 0 ∷ 0 ∷ []) (run LockOrder.step 2 (0 ∷ 1 ∷ []) LockOrder.start)
    ≡ run LockOrder.step 2 (0 ∷ 1 ∷ []) LockOrder.start
unfolding run turn dec_lt LockOrder.step
crossed-run_example = crossed-run (0 ∷ 1 ∷ []) (1 ∷ 0 ∷ 0 ∷ []) refl

after_both_before_example :
    Rendezvous.Laws.has_arrived ((run Rendezvous.step 2 (alternate 3) Rendezvous.start).pc 0)
      && Rendezvous.Laws.has_arrived ((run Rendezvous.step 2 (alternate 3) Rendezvous.start).pc 1)
    ≡ true
unfolding run turn dec_lt Rendezvous.step
after_both_before_example = after_both_before (alternate 3) refl

-- The writer waits behind a reader, with the turnstile shut.
turnstile_shut_example :
    (ReaderWriterNoStarve.step
        (run ReaderWriterNoStarve.step 2
          (0 ∷ 0 ∷ 0 ∷ 0 ∷ 0 ∷ 1 ∷ 1 ∷ [])
          (ReaderWriterNoStarve.start one_reader)).shared
        ReaderWriterNoStarve.pass
      ≡ none)
    × (ReaderWriterNoStarve.step
          (run ReaderWriterNoStarve.step 2
            (0 ∷ 0 ∷ 0 ∷ 0 ∷ 0 ∷ 1 ∷ 1 ∷ [])
            (ReaderWriterNoStarve.start one_reader)).shared
          ReaderWriterNoStarve.enter_write
        ≡ none)
unfolding run turn dec_lt ReaderWriterNoStarve.step
turnstile_shut_example =
    turnstile_shut 2 one_reader (0 ∷ 0 ∷ 0 ∷ 0 ∷ 0 ∷ 1 ∷ 1 ∷ []) 1 (omega arith) refl

-- Worker 1 is in the middle of its `critical++` at first.
workers_count_example :
    (run NoStarveMutex.step 2 (worker_1_alone ++ rounds 2 30) NoStarveMutex.start).shared.critical
    ≡ 2
workers_count_example = workers_count 2 worker_1_alone

-- Child 0 has arrived and waits at first.
children_finish_example :
    Barrier.Laws.is_finished
      ((run Barrier.step 2 ((0 ∷ 0 ∷ 0 ∷ 0 ∷ []) ++ rounds 2 16) (Barrier.start 2)).pc 1)
    ≡ true
children_finish_example = children_finish 2 (0 ∷ 0 ∷ 0 ∷ 0 ∷ []) 1 (omega arith)

global_lock_finish_example :
    GlobalLock.Laws.has_finished
      ((run GlobalLock.step 2 ((0 ∷ 1 ∷ []) ++ rounds 2 12) GlobalLock.start).pc 1)
    ≡ true
global_lock_finish_example = global_lock_finish (0 ∷ 1 ∷ []) 1 (omega arith)

-- The sixteen threads of `simple-counter.c`, thread 3 of which holds the mutex at first.
increments_counted_example :
    (run LockedCounter.step LockedCounter.loop
      ((3 ∷ 3 ∷ []) ++ rounds 16 64)
      LockedCounter.start).shared.value
    ≡ 16
increments_counted_example = increments_counted 16 (3 ∷ 3 ∷ [])

-- The two threads of `main-race.c`.
race_counted :
    (run LockedCounter.race_step 2
      ((0 ∷ 1 ∷ []) ++ rounds 2 8)
      LockedCounter.race_start).shared.value
    ≡ 2
unfolding run turn dec_lt LockedCounter.step
race_counted = refl

-- `main` is asleep at first.
last_line_follows_example :
    ((run ConditionVariable.step 3
        (0 ∷ 0 ∷ 0 ∷ 2 ∷ 0 ∷ [])
        (ConditionVariable.start 2)).shared.last_lines
      ≤ (run ConditionVariable.step 3
          (0 ∷ 0 ∷ 0 ∷ 2 ∷ 0 ∷ [])
          (ConditionVariable.start 2)).shared.first_lines)
    × ((ConditionVariable.Laws.ended 2 (0 ∷ 0 ∷ 0 ∷ 2 ∷ 0 ∷ [])).shared.last_lines ≡ 1)
last_line_follows_example = last_line_follows 2 (0 ∷ 0 ∷ 0 ∷ 2 ∷ 0 ∷ [])
