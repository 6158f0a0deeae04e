-- ===== src/Sync/NoStarveMutex.antt =====
-- `Mutual Exclusion Problems/mutex-nostarve.c`: a mutex with two waiting rooms behind two turnstiles,
-- and the workers that count under it.
pub mod Invariant
pub mod Safety
pub mod Progress
pub mod Termination
use c_advanced_problems.Prelude.{ℕ, ◌+◌, ◌-◌, Option, none, some, if◌then◌else◌, ◌==◌}
use c_advanced_problems.Sync.Interleaving.{System}

-- `ns_mutex_t` and the variable `critical`. The semaphores are their values.
pub record Shared : Type 0 where
  pub warteraum1 : ℕ
  pub warteraum2 : ℕ
  pub mutex : ℕ
  pub drehkreuz1 : ℕ
  pub drehkreuz2 : ℕ
  pub critical : ℕ

-- Where a worker stands: its next statement that touches shared memory.
pub data Pc : Type 0 where
  acquire : Pc  -- ns_mutex_acquire: sem_wait(&m->mutex)
  enter_room1 : Pc  -- m->warteraum1 += 1
  post_entered : Pc  -- sem_post(&m->mutex)
  pass_turnstile1 : Pc  -- sem_wait(&m->drehkreuz1)
  enter_room2 : Pc  -- m->warteraum2 += 1
  lock_room1 : Pc  -- sem_wait(&m->mutex)
  leave_room1 : Pc  -- m->warteraum1 -= 1 and the test for an empty room
  post_last : Pc  -- sem_post(&m->mutex), where the room is empty
  open_turnstile2 : Pc  -- sem_post(&m->drehkreuz2)
  post_more : Pc  -- sem_post(&m->mutex), where it is not
  open_turnstile1 : Pc  -- sem_post(&m->drehkreuz1)
  pass_turnstile2 : Pc  -- sem_wait(&m->drehkreuz2)
  leave_room2 : Pc  -- m->warteraum2 -= 1
  load : Pc  -- critical++ reads `critical`
  store : (loaded : ℕ) → Pc  -- critical++ writes it back
  release : Pc  -- ns_mutex_release: the test of m->warteraum2
  release1 : Pc  -- sem_post(&m->drehkreuz1)
  release2 : Pc  -- sem_post(&m->drehkreuz2)
  finished : Pc

-- `ns_mutex_init`, with `critical` as it is declared.
abbrev pub ns_mutex_init : Shared
ns_mutex_init = record {
  warteraum1 = 0;
  warteraum2 = 0;
  mutex = 1;
  drehkreuz1 = 1;
  drehkreuz2 = 0;
  critical = 0;
}

-- One statement of a worker; `none` where it waits for a semaphore or has finished.
unfoldable pub step : Shared → Pc → Option (Shared × Pc)
step m acquire = if m.mutex == 0 then none else some (record m { mutex = m.mutex - 1 }, enter_room1)
step m enter_room1 = some (record m { warteraum1 = m.warteraum1 + 1 }, post_entered)
step m post_entered = some (record m { mutex = m.mutex + 1 }, pass_turnstile1)
step m pass_turnstile1 =
    if m.drehkreuz1 == 0
    then none
    else some (record m { drehkreuz1 = m.drehkreuz1 - 1 }, enter_room2)
step m enter_room2 = some (record m { warteraum2 = m.warteraum2 + 1 }, lock_room1)
step m lock_room1 =
    if m.mutex == 0 then none else some (record m { mutex = m.mutex - 1 }, leave_room1)
step m leave_room1 = some (
  record m { warteraum1 = m.warteraum1 - 1 },
  if m.warteraum1 - 1 == 0 then post_last else post_more,
)
step m post_last = some (record m { mutex = m.mutex + 1 }, open_turnstile2)
step m open_turnstile2 = some (record m { drehkreuz2 = m.drehkreuz2 + 1 }, pass_turnstile2)
step m post_more = some (record m { mutex = m.mutex + 1 }, open_turnstile1)
step m open_turnstile1 = some (record m { drehkreuz1 = m.drehkreuz1 + 1 }, pass_turnstile2)
step m pass_turnstile2 =
    if m.drehkreuz2 == 0
    then none
    else some (record m { drehkreuz2 = m.drehkreuz2 - 1 }, leave_room2)
step m leave_room2 = some (record m { warteraum2 = m.warteraum2 - 1 }, load)
step m load = some (m, store m.critical)
step m (store loaded) = some (record m { critical = loaded + 1 }, release)
step m release = some (m, if m.warteraum2 == 0 then release1 else release2)
step m release1 = some (record m { drehkreuz1 = m.drehkreuz1 + 1 }, finished)
step m release2 = some (record m { drehkreuz2 = m.drehkreuz2 + 1 }, finished)
step m finished = none

-- `main`, once it has created the workers.
abbrev pub start : System Shared Pc
start = record { shared = ns_mutex_init; pc = λ _. acquire }
