-- ===== src/Timing/Times.antt =====
-- The statistics that `mytimer.c` and `myworkqueue.c` keep (`times_t`), on `unsigned long`. The two
-- handlers have the same comparisons in the middle.
use c_advanced_problems.Prelude.{ℕ, ◌-◌, ◌^◌, if◌then◌else◌, ltb}
use c_advanced_problems.Driver.User.{sub64}

pub record Times : Type 0 where
  pub prev : ℕ
  pub curr : ℕ
  pub max : ℕ
  pub min : ℕ

-- `jiff`, `cycles` and `nanosecs`.
pub record Statistics : Type 0 where
  pub jiff : Times
  pub cycles : Times
  pub nanosecs : Times

-- The largest `unsigned long`.
abbrev pub ulong_max : ℕ
ulong_max = 2 ^ 64 - 1

-- `curr` from the clock, and the two comparisons with it.
unfoldable pub observe : (now : ℕ) → Times → Times
observe now t =
    let d = sub64 now t.prev in
    record t {
      curr = d;
      max = if ltb t.max d then d else t.max;
      min = if ltb d t.min then d else t.min;
    }

-- The nanoseconds follow the comparisons of the jiffies. `to_ns` is `jiffies_to_nsecs`.
unfoldable pub observe_nanosecs : (to_ns : ℕ → ℕ) → (now : ℕ) → (jiff nanosecs : Times) → Times
observe_nanosecs to_ns now jiff nanosecs =
    let d = sub64 now jiff.prev in
    record nanosecs {
      curr = to_ns d;
      max = if ltb jiff.max d then to_ns d else nanosecs.max;
      min = if ltb d jiff.min then to_ns d else nanosecs.min;
    }

-- The handlers up to their output.
unfoldable pub observe_all : (to_ns : ℕ → ℕ) → (cyc now : ℕ) → Statistics → Statistics
observe_all to_ns cyc now s = record {
  jiff = observe now s.jiff;
  cycles = observe cyc s.cycles;
  nanosecs = observe_nanosecs to_ns now s.jiff s.nanosecs;
}
