-- ===== src/Sync/Rendezvous.antt =====
-- `Mutual Exclusion Problems/rendezvous.c`: two children that wait for one another.
pub mod Laws
pub mod Termination
use c_advanced_problems.Prelude.{ℕ, ◌+◌, ◌-◌, Option, none, some, if◌then◌else◌, ◌==◌}
use c_advanced_problems.Sync.Interleaving.{System}

-- The semaphores are their values.
pub record Shared : Type 0 where
  pub one_arrived : ℕ
  pub two_arrived : ℕ

-- The next statement of `child_1` or of `child_2`; `sleep` changes nothing.
pub data Pc : Type 0 where
  before_1 : Pc  -- printf("child 1: before\n")
  post_1 : Pc  -- sem_post(&OneArrived)
  wait_1 : Pc  -- sem_wait(&TwoArrived)
  after_1 : Pc  -- printf("child 1: after\n")
  before_2 : Pc  -- printf("child 2: before\n")
  post_2 : Pc  -- sem_post(&TwoArrived)
  wait_2 : Pc  -- sem_wait(&OneArrived)
  after_2 : Pc  -- printf("child 2: after\n")
  finished_1 : Pc
  finished_2 : Pc

-- One statement of a child; `none` where it waits or has returned.
unfoldable pub step : Shared → Pc → Option (Shared × Pc)
step m before_1 = some (m, post_1)
step m post_1 = some (record m { one_arrived = m.one_arrived + 1 }, wait_1)
step m wait_1 =
    if m.two_arrived == 0
    then none
    else some (record m { two_arrived = m.two_arrived - 1 }, after_1)
step m after_1 = some (m, finished_1)
step m before_2 = some (m, post_2)
step m post_2 = some (record m { two_arrived = m.two_arrived + 1 }, wait_2)
step m wait_2 =
    if m.one_arrived == 0
    then none
    else some (record m { one_arrived = m.one_arrived - 1 }, after_2)
step m after_2 = some (m, finished_2)
step m finished_1 = none
step m finished_2 = none

-- `main`, once it has created the children.
abbrev pub start : System Shared Pc
start = record {
  shared = record { one_arrived = 0; two_arrived = 0 };
  pc = λ i. if i == 0 then before_1 else before_2;
}
