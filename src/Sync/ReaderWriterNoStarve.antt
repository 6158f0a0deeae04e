-- ===== src/Sync/ReaderWriterNoStarve.antt =====
-- `Mutual Exclusion Problems/reader-writer-nostarve.c`: the reader-writer lock with a turnstile, which a
-- writer keeps shut from the moment it waits. How often a thread goes round its loop is left open.
pub mod Invariant
pub mod Safety
use c_advanced_problems.Prelude.{ℕ, ◌+◌, ◌-◌, Bool, Option, none, some, if◌then◌else◌, ◌==◌}
use c_advanced_problems.Sync.Interleaving.{System}

-- `rwlock_t` and the variable `value`. The semaphores are their values.
pub record Shared : Type 0 where
  pub mutex : ℕ
  pub writelock : ℕ
  pub turnstile : ℕ
  pub readers : ℕ
  pub value : ℕ

-- Where a thread stands: the next statement, of `reader` or of `writer`, that touches shared memory.
pub data Pc : Type 0 where
  pass : Pc  -- rwlock_acquire_readlock: sem_wait(&rw->turnstile)
  repost : Pc  -- sem_post(&rw->turnstile)
  acquire : Pc  -- sem_wait(&rw->mutex)
  count_in : Pc  -- rw->readers++ and the test for the first reader
  wait_writelock : Pc  -- sem_wait(&rw->writelock) of the first reader
  post_in : Pc  -- sem_post(&rw->mutex)
  reading : Pc  -- printf("read %d\n", value)
  release : Pc  -- rwlock_release_readlock: sem_wait(&rw->mutex)
  count_out : Pc  -- rw->readers-- and the test for the last reader
  post_writelock : Pc  -- sem_post(&rw->writelock) of the last reader
  post_out : Pc  -- sem_post(&rw->mutex)
  enter_write : Pc  -- rwlock_acquire_writelock: sem_wait(&rw->turnstile)
  acquire_write : Pc  -- sem_wait(&rw->writelock)
  load : Pc  -- value++ reads `value`
  store : (loaded : ℕ) → Pc  -- value++ writes it back
  print_value : Pc  -- printf("write %d\n", value)
  open_turnstile : Pc  -- rwlock_release_writelock: sem_post(&rw->turnstile)
  release_write : Pc  -- sem_post(&rw->writelock)

-- `rwlock_init`, with `value` as it is declared.
abbrev pub rwlock_init : Shared
rwlock_init = record { mutex = 1; writelock = 1; turnstile = 1; readers = 0; value = 0 }

-- One statement of a thread; `none` where it waits for a semaphore.
unfoldable pub step : Shared → Pc → Option (Shared × Pc)
step m pass =
    if m.turnstile == 0 then none else some (record m { turnstile = m.turnstile - 1 }, repost)
step m repost = some (record m { turnstile = m.turnstile + 1 }, acquire)
step m acquire = if m.mutex == 0 then none else some (record m { mutex = m.mutex - 1 }, count_in)
step m count_in =
    some
      (record m { readers = m.readers + 1 }, if m.readers + 1 == 1 then wait_writelock else post_in)
step m wait_writelock =
    if m.writelock == 0 then none else some (record m { writelock = m.writelock - 1 }, post_in)
step m post_in = some (record m { mutex = m.mutex + 1 }, reading)
step m reading = some (m, release)
step m release = if m.mutex == 0 then none else some (record m { mutex = m.mutex - 1 }, count_out)
step m count_out =
    some (
      record m { readers = m.readers - 1 },
      if m.readers - 1 == 0 then post_writelock else post_out,
    )
step m post_writelock = some (record m { writelock = m.writelock + 1 }, post_out)
step m post_out = some (record m { mutex = m.mutex + 1 }, pass)
step m enter_write =
    if m.turnstile == 0
    then none
    else some (record m { turnstile = m.turnstile - 1 }, acquire_write)
step m acquire_write =
    if m.writelock == 0 then none else some (record m { writelock = m.writelock - 1 }, load)
step m load = some (m, store m.value)
step m (store loaded) = some (record m { value = loaded + 1 }, print_value)
step m print_value = some (m, open_turnstile)
step m open_turnstile = some (record m { turnstile = m.turnstile + 1 }, release_write)
step m release_write = some (record m { writelock = m.writelock + 1 }, enter_write)

-- `main`: the threads for which `is_reader` holds run `reader`, the others `writer`.
abbrev pub start : (is_reader : ℕ → Bool) → System Shared Pc
start is_reader = record {
  shared = rwlock_init;
  pc = λ i. if is_reader i then pass else enter_write;
}
