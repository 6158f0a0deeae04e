-- ===== src/Sync/ConditionVariable.antt =====
-- `Mutual Exclusion/main-signal-cv.c`: `main` waits on a condition variable for `worker`. A signal wakes
-- a thread that waits, and is lost where none does. A thread
-- may also wake without a signal, as POSIX allows: such wakeups come from a third thread.
pub mod Invariant
pub mod Laws
use c_advanced_problems.Prelude.{ℕ, zero, suc, ◌+◌, ◌-◌, Option, none, some, if◌then◌else◌, ◌==◌}
use c_advanced_problems.Sync.Interleaving.{System}

-- `synchronizer_t`, with `cond` as how many threads wait and how many are woken, and how often the first
-- and the last line have been printed.
pub record Shared : Type 0 where
  pub lock : ℕ
  pub waiting : ℕ
  pub woken : ℕ
  pub done : ℕ
  pub first_lines : ℕ
  pub last_lines : ℕ

-- Where `worker` stands, and where `main` stands; the last one is that of the spurious wakeups.
pub data Pc : Type 0 where
  print_first : Pc  -- printf("this should print first\n")
  lock_done : Pc  -- signal_done: Pthread_mutex_lock(&s->lock)
  set_done : Pc  -- s->done = 1
  signal : Pc  -- Pthread_cond_signal(&s->cond)
  unlock_done : Pc  -- Pthread_mutex_unlock(&s->lock)
  worker_finished : Pc
  lock_wait : Pc  -- signal_wait: Pthread_mutex_lock(&s->lock)
  test : Pc  -- s->done == 0
  wait : Pc  -- Pthread_cond_wait gives the mutex back and begins to wait
  asleep : Pc  -- Pthread_cond_wait, until it is woken
  relock : Pc  -- Pthread_cond_wait takes the mutex again
  unlock_wait : Pc  -- Pthread_mutex_unlock(&s->lock)
  print_last : Pc  -- printf("this should print last\n")
  main_finished : Pc
  spurious : (left : ℕ) → Pc  -- what wakes `main` without a signal, at most `left` times

-- `signal_init`
abbrev pub signal_init : Shared
signal_init = record { lock = 1; waiting = 0; woken = 0; done = 0; first_lines = 0; last_lines = 0 }

-- One statement of `worker` or `main`; `none` where it waits or has returned.
unfoldable pub step : Shared → Pc → Option (Shared × Pc)
step m print_first = some (record m { first_lines = m.first_lines + 1 }, lock_done)
step m lock_done = if m.lock == 0 then none else some (record m { lock = m.lock - 1 }, set_done)
step m set_done = some (record m { done = 1 }, signal)
step m signal =
    if m.waiting == 0
    then some (m, unlock_done)
    else some (record m { waiting = m.waiting - 1; woken = m.woken + 1 }, unlock_done)
step m unlock_done = some (record m { lock = m.lock + 1 }, worker_finished)
step m worker_finished = none
step m lock_wait = if m.lock == 0 then none else some (record m { lock = m.lock - 1 }, test)
step m test = some (m, if m.done == 0 then wait else unlock_wait)
step m wait = some (record m { lock = m.lock + 1; waiting = m.waiting + 1 }, asleep)
step m asleep = if m.woken == 0 then none else some (record m { woken = m.woken - 1 }, relock)
step m relock = if m.lock == 0 then none else some (record m { lock = m.lock - 1 }, test)
step m unlock_wait = some (record m { lock = m.lock + 1 }, print_last)
step m print_last = some (record m { last_lines = m.last_lines + 1 }, main_finished)
step m main_finished = none
step m (spurious zero) = none
step m (spurious (suc left)) = some (
  if m.waiting == 0 then m else record m { waiting = m.waiting - 1; woken = m.woken + 1 },
  spurious left,
)

-- `main`, once it has created `worker`; `main` is thread 0, and thread 2 wakes it without a signal up to
-- `wakeups` times.
abbrev pub start : (wakeups : ℕ) → System Shared Pc
start wakeups = record {
  shared = signal_init;
  pc = λ i. if i == 0 then lock_wait else if i == 1 then print_first else spurious wakeups;
}
