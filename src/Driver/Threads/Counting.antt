-- ===== src/Driver/Threads/Counting.antt =====
-- The two threads of `Kernel Modules/hw5/modules/mysemaphore/mysemaphore.c`, and `ModExit`, which waits
-- for them. A signal that is sent stays pending. The task of a thread that has ended is freed, since the
-- module holds no reference to it.
pub mod Invariant
pub mod Laws
use c_advanced_problems.Prelude.{
  ℕ, ◌+◌, ◌-◌, Bool, true, false, Option, none, some, if◌then◌else◌, ◌==◌, ltb,
}
use c_advanced_problems.Sync.Interleaving.{System}

-- `list_mutex`, 1 where it is free; `global_counter`; how often `cmpltn` is completed and not waited for;
-- whether SIGTERM has been sent to either thread, and whether either has ended.
pub record Shared : Type 0 where
  pub mutex : ℕ
  pub counter : ℕ
  pub completed : ℕ
  pub signalled_1 : Bool
  pub signalled_2 : Bool
  pub ended_1 : Bool
  pub ended_2 : Bool

-- Where a thread stands in `thread_code`, with its variable `i`, or ModExit. `who` is the number of the
-- thread, and `made` how often it has counted, which the code does not keep.
pub data Pc : Type 0 where
  test : (who i : ℕ) → Pc  -- i<2
  lock : (who i : ℕ) → Pc  -- mutex_lock_interruptible
  load : (who i : ℕ) → Pc  -- global_counter++ reads the counter
  store : (who i loaded : ℕ) → Pc  -- global_counter++ writes it back
  unlock : (who i : ℕ) → Pc  -- mutex_unlock
  sleep : (who i : ℕ) → Pc  -- wait_event_interruptible_timeout
  complete : (who made : ℕ) → Pc  -- complete_and_exit
  thread_finished : (made : ℕ) → Pc
  kill_1 : Pc  -- kill_pid of the first thread
  kill_2 : Pc  -- kill_pid of the second thread
  wait_1 : Pc  -- the first wait_for_completion
  wait_2 : Pc  -- the second wait_for_completion
  report : Pc  -- the output of global_counter
  exit_finished : (printed : ℕ) → Pc
  freed_used : Pc  -- task_pid has read the task of a thread that has ended

abbrev pending : ℕ → Shared → Bool
pending who m = if who == 0 then m.signalled_1 else m.signalled_2

-- One statement. `mutex_lock_interruptible` gives up where it would have to wait with a signal pending;
-- the sleep ends by its timeout, or by a signal.
unfoldable pub step : Shared → Pc → Option (Shared × Pc)
step m (test who i) = some (m, if ltb i 2 then lock who i else complete who i)
step m (lock who i) =
    if m.mutex == 0
    then if pending who m then some (m, complete who i) else none
    else some (record m { mutex = m.mutex - 1 }, load who i)
step m (load who i) = some (m, store who i m.counter)
step m (store who i loaded) = some (record m { counter = loaded + 1 }, unlock who i)
step m (unlock who i) = some (record m { mutex = m.mutex + 1 }, sleep who i)
step m (sleep who i) = some (m, if pending who m then complete who (i + 1) else test who (i + 1))
step m (complete who made) = some (
  record m {
    completed = m.completed + 1;
    ended_1 = if who == 0 then true else m.ended_1;
    ended_2 = if who == 0 then m.ended_2 else true;
  },
  thread_finished made,
)
step m (thread_finished made) = none
step m kill_1 =
    some (if m.ended_1 then (m, freed_used) else (record m { signalled_1 = true }, kill_2))
step m kill_2 =
    some (if m.ended_2 then (m, freed_used) else (record m { signalled_2 = true }, wait_1))
step m wait_1 =
    if m.completed == 0 then none else some (record m { completed = m.completed - 1 }, wait_2)
step m wait_2 =
    if m.completed == 0 then none else some (record m { completed = m.completed - 1 }, report)
step m report = some (m, exit_finished m.counter)
step m (exit_finished printed) = none
step m freed_used = none

-- Once `ModInit` has woken both threads; ModExit, which may begin at any time, is thread 2.
abbrev pub start : System Shared Pc
start = record {
  shared = record {
    mutex = 1;
    counter = 0;
    completed = 0;
    signalled_1 = false;
    signalled_2 = false;
    ended_1 = false;
    ended_2 = false;
  };
  pc = λ n. if n == 2 then kill_1 else test n 0;
}
