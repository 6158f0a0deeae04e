-- ===== src/Timing/Timer.antt =====
-- `Kernel Modules/hw5/modules/mytimer/mytimer.c`: a timer that adds itself again each time it fires.
pub mod Laws
use c_advanced_problems.Prelude.{ℕ, ◌+◌, ◌*◌, ◌%◌, ◌^◌, List, [], ◌∷◌}
use c_advanced_problems.Timing.Times.{Times, Statistics, ulong_max, observe_all}

-- The statistics and `mytimer.expires`; `armed` counts the calls of `add_timer`.
pub record Timer : Type 0 where
  pub stats : Statistics
  pub expires : ℕ
  pub armed : ℕ

-- The static initialisers.
abbrev pub unused : Times
unused = record { prev = 0; curr = 0; max = 0; min = ulong_max }

-- `timer_init`, with the clocks at `j` and `cyc`. `hz` is the kernel's HZ.
pub timer_init : (hz j cyc : ℕ) → Timer
timer_init hz j cyc = record {
  stats = record {
    jiff = record unused { prev = j };
    cycles = record unused { prev = cyc };
    nanosecs = unused;
  };
  expires = (j + 2 * hz) % 2 ^ 64;
  armed = 1;
}

-- `timer_func`, with the clocks at `j` and `cyc`.
pub timer_func : (hz : ℕ) → (to_ns : ℕ → ℕ) → (j cyc : ℕ) → Timer → Timer
timer_func hz to_ns j cyc t =
    let s = observe_all to_ns cyc j t.stats in
    record {
      stats = record {
        jiff = record (s.jiff) { prev = j };
        cycles = record (s.cycles) { prev = cyc };
        nanosecs = s.nanosecs;
      };
      expires = (j + 2 * hz) % 2 ^ 64;
      armed = t.armed + 1;
    }

-- The clocks each time the timer fires: jiffies and cycles.
pub fire_all : (hz : ℕ) → (to_ns : ℕ → ℕ) → List (ℕ × ℕ) → Timer → Timer
fire_all hz to_ns [] t = t
fire_all hz to_ns ((j, cyc) ∷ ts) t = fire_all hz to_ns ts (timer_func hz to_ns j cyc t)
