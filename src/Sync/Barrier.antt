-- ===== src/Sync/Barrier.antt =====
-- `Mutual Exclusion Problems/barrier.c`: a barrier for a fixed number of threads.
pub mod Invariant
pub mod Laws
pub mod Termination
use c_advanced_problems.Prelude.{ℕ, ◌+◌, ◌-◌, Option, none, some, if◌then◌else◌, ◌==◌}
use c_advanced_problems.Sync.Interleaving.{System}

-- `barrier_t`. The semaphores are their values.
pub record Shared : Type 0 where
  pub threads : ℕ
  pub count : ℕ
  pub mutex : ℕ
  pub barrier : ℕ

-- Where a child stands: its next statement that touches shared memory, or its second output.
pub data Pc : Type 0 where
  before : Pc  -- printf("child %d: before\n"), then sem_wait(&b->mutex)
  arrive : Pc  -- b->count++
  post_mutex : Pc  -- sem_post(&b->mutex)
  test : Pc  -- b->count == b->threads, outside the mutex
  open_barrier : Pc  -- sem_post(&b->barrier) of a thread that saw all arrived
  wait_barrier : Pc  -- sem_wait(&b->barrier)
  post_barrier : Pc  -- sem_post(&b->barrier)
  after : Pc  -- printf("child %d: after\n")
  finished : Pc

-- `barrier_init`
abbrev pub barrier_init : ℕ → Shared
barrier_init num_threads = record { threads = num_threads; count = 0; mutex = 1; barrier = 0 }

-- One statement of a child; `none` where it waits for a semaphore or has finished.
unfoldable pub step : Shared → Pc → Option (Shared × Pc)
step m before = if m.mutex == 0 then none else some (record m { mutex = m.mutex - 1 }, arrive)
step m arrive = some (record m { count = m.count + 1 }, post_mutex)
step m post_mutex = some (record m { mutex = m.mutex + 1 }, test)
step m test = some (m, if m.count == m.threads then open_barrier else wait_barrier)
step m open_barrier = some (record m { barrier = m.barrier + 1 }, wait_barrier)
step m wait_barrier =
    if m.barrier == 0 then none else some (record m { barrier = m.barrier - 1 }, post_barrier)
step m post_barrier = some (record m { barrier = m.barrier + 1 }, after)
step m after = some (m, finished)
step m finished = none

-- `main`, once it has created the children.
abbrev pub start : (num_threads : ℕ) → System Shared Pc
start num_threads = record { shared = barrier_init num_threads; pc = λ _. before }
