-- ===== src/Sync/LockedCounter.antt =====
-- A number that threads count up under a mutex: `increment` of `Multithreaded Datastructures/simple-counter.c`,
-- and both threads of `Mutual Exclusion/main-race.c`.
pub mod Invariant
pub mod Laws
use c_advanced_problems.Prelude.{ℕ, ◌+◌, ◌-◌, Option, none, some, if◌then◌else◌, ◌==◌}
use c_advanced_problems.Sync.Interleaving.{System}

-- `counter`; the mutex is 1 where it is free.
pub record Shared : Type 0 where
  pub value : ℕ
  pub lock : ℕ

-- Where a thread stands in `increment`.
pub data Pc : Type 0 where
  acquire : Pc  -- Pthread_mutex_lock(&c->lock)
  load : Pc  -- c->value++ reads the value
  store : (loaded : ℕ) → Pc  -- c->value++ writes it back
  release : Pc  -- Pthread_mutex_unlock(&c->lock)
  finished : Pc

-- `init`
abbrev pub init : Shared
init = record { value = 0; lock = 1 }

-- One statement of `increment`; `none` where it waits for the mutex or has returned.
unfoldable pub step : Shared → Pc → Option (Shared × Pc)
step m acquire = if m.lock == 0 then none else some (record m { lock = m.lock - 1 }, load)
step m load = some (m, store m.value)
step m (store loaded) = some (record m { value = loaded + 1 }, release)
step m release = some (record m { lock = m.lock + 1 }, finished)
step m finished = none

-- `main` of `simple-counter.c`, once it has created its 16 threads.
abbrev pub loop : ℕ
loop = 16

abbrev pub start : System Shared Pc
start = record { shared = init; pc = λ _. acquire }

-- The statements of `worker` and of `main` in `main-race.c`.
abbrev pub race_step : Shared → Pc → Option (Shared × Pc)
race_step = step

-- `main` of `main-race.c`, once it has created `worker`; it is the other thread.
abbrev pub race_start : System Shared Pc
race_start = start
