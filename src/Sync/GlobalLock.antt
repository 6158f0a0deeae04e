-- ===== src/Sync/GlobalLock.antt =====
-- `Mutual Exclusion/main-deadlock-global.c`: as main-deadlock.c, with a third mutex around both orders.
pub mod Laws
pub mod Termination
use c_advanced_problems.Prelude.{ℕ, ◌+◌, ◌-◌, Option, none, some, if◌then◌else◌, ◌==◌}
use c_advanced_problems.Sync.Interleaving.{System}

-- The mutexes: 1 where one is free, 0 where it is held.
pub record Shared : Type 0 where
  pub g : ℕ
  pub m1 : ℕ
  pub m2 : ℕ

-- The next statement of `worker`.
pub data Pc : Type 0 where
  lock_g : (argument : ℕ) → Pc  -- Pthread_mutex_lock(&g), then the test of the argument
  lock_m1 : Pc  -- argument 0: Pthread_mutex_lock(&m1)
  then_m2 : Pc  -- argument 0: Pthread_mutex_lock(&m2)
  lock_m2 : Pc  -- any other argument: Pthread_mutex_lock(&m2)
  then_m1 : Pc  -- any other argument: Pthread_mutex_lock(&m1)
  unlock_m1 : Pc  -- Pthread_mutex_unlock(&m1)
  unlock_m2 : Pc  -- Pthread_mutex_unlock(&m2)
  unlock_g : Pc  -- Pthread_mutex_unlock(&g)
  finished : Pc

-- One statement of `worker`; `none` where it waits for a mutex or has returned.
unfoldable pub step : Shared → Pc → Option (Shared × Pc)
step m (lock_g argument) =
    if m.g == 0
    then none
    else some (record m { g = m.g - 1 }, if argument == 0 then lock_m1 else lock_m2)
step m lock_m1 = if m.m1 == 0 then none else some (record m { m1 = m.m1 - 1 }, then_m2)
step m then_m2 = if m.m2 == 0 then none else some (record m { m2 = m.m2 - 1 }, unlock_m1)
step m lock_m2 = if m.m2 == 0 then none else some (record m { m2 = m.m2 - 1 }, then_m1)
step m then_m1 = if m.m1 == 0 then none else some (record m { m1 = m.m1 - 1 }, unlock_m1)
step m unlock_m1 = some (record m { m1 = m.m1 + 1 }, unlock_m2)
step m unlock_m2 = some (record m { m2 = m.m2 + 1 }, unlock_g)
step m unlock_g = some (record m { g = m.g + 1 }, finished)
step m finished = none

-- `main`, once it has created the threads: the argument of a thread is its number.
abbrev pub start : System Shared Pc
start = record { shared = record { g = 1; m1 = 1; m2 = 1 }; pc = λ i. lock_g i }
