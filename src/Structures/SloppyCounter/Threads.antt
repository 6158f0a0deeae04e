-- ===== src/Structures/SloppyCounter/Threads.antt =====
-- The threads and `main` of `Multithreaded Datastructures/sloppy-counter.c`, one statement that touches
-- shared memory at a time. `threads` is THREADS, `max` is MAX, and `threshold` is the field that `init`
-- sets and nothing changes.
pub mod Invariant
pub mod Steps
pub mod Places
pub mod Totals
pub mod Progress
pub mod Laws
use c_advanced_problems.Prelude.{
  ℕ, zero, suc, ◌+◌, ◌-◌, Option, none, some, if◌then◌else◌, ◌==◌, ltb, leb,
}
use c_advanced_problems.Prelude.Tally.{put}
use c_advanced_problems.Sync.Interleaving.{System}

-- `counter`, with the locks as 1 where they are free; how many
-- threads are created; and how many have ended. The threadWrapper is no part of it.
pub record Shared : Type 0 where
  pub value : ℕ
  pub globallock : ℕ
  pub local : ℕ → ℕ
  pub locallock : ℕ → ℕ
  pub created : ℕ
  pub ended : ℕ

-- Where a thread stands in `incrementWrapper` and `increment`, with `who` for which thread it is and
-- `left` for the calls that it is still to make, or where `main` stands.
pub data Pc : Type 0 where
  next_call : (who left : ℕ) → Pc  -- increment(thread->count, thread->id)
  lock_local : (who left id : ℕ) → Pc  -- Pthread_mutex_lock(&c->locallock[threadId])
  load_local : (who left id : ℕ) → Pc  -- c->local[threadId] += 1 reads
  store_local : (who left id loaded : ℕ) → Pc  -- c->local[threadId] += 1 writes
  test : (who left id : ℕ) → Pc  -- c->local[threadId] >= c->threshold
  lock_global : (who left id : ℕ) → Pc  -- Pthread_mutex_lock(&c->globallock)
  load_value : (who left id : ℕ) → Pc  -- c->value += c->local[threadId] reads
  store_value : (who left id part loaded : ℕ) → Pc  -- c->value += c->local[threadId] writes
  unlock_global : (who left id part : ℕ) → Pc  -- Pthread_mutex_unlock(&c->globallock)
  reset : (who left id part : ℕ) → Pc  -- c->local[threadId] = 0
  unlock_local : (who left id : ℕ) → Pc  -- Pthread_mutex_unlock(&c->locallock[threadId])
  ended_thread : Pc
  create : (i : ℕ) → Pc  -- main: tw.id = i and Pthread_create
  join : Pc  -- main: the calls of pthread_join
  get_lock : Pc  -- get: Pthread_mutex_lock(&c->globallock)
  get_value : Pc  -- get: rc = c->value
  get_unlock : (rc : ℕ) → Pc  -- get: Pthread_mutex_unlock(&c->globallock)
  printed : (rc : ℕ) → Pc  -- main has printed the counter

-- All threads are given the address of one variable of the body of the loop of `main`, which ends with
-- each round of the loop. `found who left` is what thread `who` reads there as its id when `left` calls
-- are to come; the counter is taken to be found there each time.
module _ (threads max threshold : ℕ) (found : (who left : ℕ) → ℕ) where
  -- One statement; `none` where it waits for a lock, for its creation or for the end of the threads.
  unfoldable pub step : Shared → Pc → Option (Shared × Pc)
  step m (next_call who zero) =
      if ltb who m.created then some (record m { ended = m.ended + 1 }, ended_thread) else none
  step m (next_call who (suc left)) =
      if ltb who m.created then some (m, lock_local who left (found who left)) else none
  step m (lock_local who left id) =
      if m.locallock id == 0
      then none
      else some
          (record m { locallock = put m.locallock id (m.locallock id - 1) }, load_local who left id)
  step m (load_local who left id) = some (m, store_local who left id (m.local id))
  step m (store_local who left id loaded) =
      some (record m { local = put m.local id (loaded + 1) }, test who left id)
  step m (test who left id) =
      some (
        m,
        if leb threshold (m.local id) then lock_global who left id else unlock_local who left id,
      )
  step m (lock_global who left id) =
      if m.globallock == 0
      then none
      else some (record m { globallock = m.globallock - 1 }, load_value who left id)
  step m (load_value who left id) = some (m, store_value who left id (m.local id) m.value)
  step m (store_value who left id part loaded) =
      some (record m { value = loaded + part }, unlock_global who left id part)
  step m (unlock_global who left id part) =
      some (record m { globallock = m.globallock + 1 }, reset who left id part)
  step m (reset who left id part) =
      some (record m { local = put m.local id 0 }, unlock_local who left id)
  step m (unlock_local who left id) =
      some (record m { locallock = put m.locallock id (m.locallock id + 1) }, next_call who left)
  step m ended_thread = none
  step m (create i) =
      if ltb i threads then some (record m { created = i + 1 }, create (i + 1)) else some (m, join)
  step m join = if ltb m.ended threads then none else some (m, get_lock)
  step m get_lock =
      if m.globallock == 0
      then none
      else some (record m { globallock = m.globallock - 1 }, get_value)
  step m get_value = some (m, get_unlock m.value)
  step m (get_unlock rc) = some (record m { globallock = m.globallock + 1 }, printed rc)
  step m (printed rc) = none

module _ (threads max threshold : ℕ) where
  -- `main` behind `init`; it is the thread behind the `threads` others, which wait for their creation.
  abbrev pub start : System Shared Pc
  start = record {
    shared = record {
      value = 0;
      globallock = 1;
      local = λ j. 0;
      locallock = λ j. 1;
      created = 0;
      ended = 0;
    };
    pc = λ i. if i == threads then create 0 else next_call i max;
  }
