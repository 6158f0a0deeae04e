-- ===== src/Sync/ForkJoin.antt =====
-- `Mutual Exclusion Problems/fork-join.c`: a parent that waits for its child.
pub mod Laws
use c_advanced_problems.Prelude.{ℕ, ◌+◌, ◌-◌, Option, none, some, if◌then◌else◌, ◌==◌}
use c_advanced_problems.Sync.Interleaving.{System}

-- The semaphore `s`, and how many lines "child" and "parent: end" have been printed.
pub record Shared : Type 0 where
  pub s : ℕ
  pub child_lines : ℕ
  pub end_lines : ℕ

-- Where the child and the parent stand; `sleep` changes nothing.
pub data Pc : Type 0 where
  print_child : Pc  -- printf("child\n")
  post : Pc  -- sem_post(&s)
  wait : Pc  -- sem_wait(&s)
  print_end : Pc  -- printf("parent: end\n")
  child_finished : Pc
  parent_finished : Pc

-- One statement of `child` or of `main`; `none` where it waits or has returned.
unfoldable pub step : Shared → Pc → Option (Shared × Pc)
step m print_child = some (record m { child_lines = m.child_lines + 1 }, post)
step m post = some (record m { s = m.s + 1 }, child_finished)
step m wait = if m.s == 0 then none else some (record m { s = m.s - 1 }, print_end)
step m print_end = some (record m { end_lines = m.end_lines + 1 }, parent_finished)
step m child_finished = none
step m parent_finished = none

-- `main`, once it has created the child; the parent is thread 0.
abbrev pub start : System Shared Pc
start = record {
  shared = record { s = 0; child_lines = 0; end_lines = 0 };
  pc = λ i. if i == 0 then wait else print_child;
}
