-- ===== src/Timing/Workqueue.antt =====
-- `Kernel Modules/hw5/modules/myworkqueue/myworkqueue.c`: delayed work that schedules itself again.
-- What `kmalloc` leaves in a block, `schedule_delayed_work` answers and the clocks show are arguments.
pub mod Laws
use c_advanced_problems.Prelude.{
  ℕ, zero, suc, ◌+◌, ◌*◌, ◌%◌, ◌^◌, Bool, List, [], ◌∷◌, if◌then◌else◌,
}
use c_advanced_problems.Driver.Kernel.{Status, ok, err, efault}
use c_advanced_problems.Timing.Times.{Times, Statistics, ulong_max, observe_all}

-- The statistics, and how many times the work was scheduled.
pub record Queue : Type 0 where
  pub stats : Statistics
  pub scheduled : ℕ

-- The clocks as the handler starts, and as it reads them again behind its output.
pub record Clocks : Type 0 where
  pub jiffies : ℕ
  pub cycles : ℕ
  pub jiffies_end : ℕ
  pub cycles_end : ℕ

-- `work_func`
pub work_func : (to_ns : ℕ → ℕ) → Clocks → Queue → Queue
work_func to_ns c q =
    let s = observe_all to_ns c.cycles c.jiffies q.stats in
    record {
      stats = record {
        jiff = record (s.jiff) { prev = c.jiffies_end };
        cycles = record (s.cycles) { prev = c.cycles_end };
        nanosecs = s.nanosecs;
      };
      scheduled = q.scheduled + 1;
    }

-- What `init_module` writes into a fresh block, `prev` apart.
abbrev pub cleared : Times → Times
cleared t = record t { curr = 0; max = 0; min = ulong_max }

-- `init_module`, over what the three blocks hold when they are allocated. Nothing is written to
-- `nanosecs`. `accepted` is the answer of `schedule_delayed_work`.
pub init_module : (accepted : Bool) → (jiffies cycles : ℕ) → Statistics → Queue × Status
init_module accepted jiffies cycles fresh =
    let stats : Statistics = record {
      jiff = record (cleared fresh.jiff) { prev = jiffies };
      cycles = record (cleared fresh.cycles) { prev = cycles };
      nanosecs = fresh.nanosecs;
    } in
    if accepted
    then (record { stats = stats; scheduled = 1 }, ok 0)
    else (record { stats = stats; scheduled = 0 }, err efault)

-- The work runs at each of the clocks.
pub run_all : (to_ns : ℕ → ℕ) → List Clocks → Queue → Queue
run_all to_ns [] q = q
run_all to_ns (c ∷ cs) q = run_all to_ns cs (work_func to_ns c q)
