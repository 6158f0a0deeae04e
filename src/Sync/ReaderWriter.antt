-- ===== src/Sync/ReaderWriter.antt =====
-- `Mutual Exclusion Problems/reader-writer.c`: a lock for any number of readers or one writer, and
-- the threads that use it. How often a thread goes round its loop is left open: one that has finished
-- gets no more turns.
pub mod Invariant
pub mod Progress
pub mod Safety
use c_advanced_problems.Prelude.{
  ℕ, zero, suc, ◌+◌, ◌-◌, Bool, Option, none, some, if◌then◌else◌, ◌==◌,
}
use c_advanced_problems.Sync.Interleaving.{System}

-- `rwlock_t` and the variable `value`. The semaphores are their values.
pub record Shared : Type 0 where
  pub mutex : ℕ
  pub writelock : ℕ
  pub readers : ℕ
  pub value : ℕ

-- Where a thread stands: the next statement, of `reader` or of `writer`, that touches shared memory.
pub data Pc : Type 0 where
  acquire : Pc  -- rwlock_acquire_readlock: sem_wait(&rw->mutex)
  count_in : Pc  -- rw->readers++ and the test for the first reader
  wait_writelock : Pc  -- sem_wait(&rw->writelock) of the first reader
  post_in : Pc  -- sem_post(&rw->mutex)
  reading : Pc  -- printf("read %d\n", value)
  release : Pc  -- rwlock_release_readlock: sem_wait(&rw->mutex)
  count_out : Pc  -- rw->readers-- and the test for the last reader
  post_writelock : Pc  -- sem_post(&rw->writelock) of the last reader
  post_out : Pc  -- sem_post(&rw->mutex)
  acquire_write : Pc  -- rwlock_acquire_writelock: sem_wait(&rw->writelock)
  load : Pc  -- value++ reads `value`
  store : (loaded : ℕ) → Pc  -- value++ writes it back
  print_value : Pc  -- printf("write %d\n", value)
  release_write : Pc  -- rwlock_release_writelock: sem_post(&rw->writelock)

-- `rwlock_init`, with `value` as it is declared.
abbrev pub rwlock_init : Shared
rwlock_init = record { mutex = 1; writelock = 1; readers = 0; value = 0 }

-- One statement of a thread; `none` where it waits for a semaphore.
unfoldable pub step : Shared → Pc → Option (Shared × Pc)
step m acquire = if m.mutex == 0 then none else some (record m { mutex = m.mutex - 1 }, count_in)
step m count_in =
    some
      (record m { readers = m.readers + 1 }, if m.readers + 1 == 1 then wait_writelock else post_in)
step m wait_writelock =
    if m.writelock == 0 then none else some (record m { writelock = m.writelock - 1 }, post_in)
step m post_in = some (record m { mutex = m.mutex + 1 }, reading)
step m reading = some (m, release)
step m release = if m.mutex == 0 then none else some (record m { mutex = m.mutex - 1 }, count_out)
step m count_out =
    some (
      record m { readers = m.readers - 1 },
      if m.readers - 1 == 0 then post_writelock else post_out,
    )
step m post_writelock = some (record m { writelock = m.writelock + 1 }, post_out)
step m post_out = some (record m { mutex = m.mutex + 1 }, acquire)
step m acquire_write =
    if m.writelock == 0 then none else some (record m { writelock = m.writelock - 1 }, load)
step m load = some (m, store m.value)
step m (store loaded) = some (record m { value = loaded + 1 }, print_value)
step m print_value = some (m, release_write)
step m release_write = some (record m { writelock = m.writelock + 1 }, acquire_write)

-- `main`: the threads for which `is_reader` holds run `reader`, the others `writer`.
abbrev pub start : (is_reader : ℕ → Bool) → System Shared Pc
start is_reader = record {
  shared = rwlock_init;
  pc = λ i. if is_reader i then acquire else acquire_write;
}
