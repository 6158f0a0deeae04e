-- ===== src/Timing/Examples.antt =====
-- The statistics over a few firings. A jiffy is 4 ms, as with HZ = 250.
use c_advanced_problems.Prelude.{ℕ, ◌*◌, ◌≡◌, true, List, [], ◌∷◌}
use c_advanced_problems.Timing.Times.{Times, Statistics}
use c_advanced_problems.Timing.Observe.{IsConverted}
use c_advanced_problems.Timing.Workqueue.{Clocks, init_module, run_all}
use c_advanced_problems.Timing.Workqueue.Laws.{run_all-init_module}

abbrev to_ns : ℕ → ℕ
to_ns jiffies = jiffies * 4000000

-- Jiffies and cycles of three firings.
abbrev firings : List (ℕ × ℕ)
firings = (1500, 7000) ∷ (2003, 9600) ∷ (2503, 12000) ∷ []

abbrev runs : List Clocks
runs =
    record { jiffies = 1500; cycles = 7000; jiffies_end = 1501; cycles_end = 7100 }
    ∷ record { jiffies = 2005; cycles = 9600; jiffies_end = 2006; cycles_end = 9700 }
    ∷ []

-- A block as it was left by its last owner.
abbrev left_over : Times
left_over = record { prev = 1; curr = 2; max = 3; min = 4 }

abbrev left_overs : Statistics
left_overs = record { jiff = left_over; cycles = left_over; nanosecs = left_over }

run_all-init_module_example :
    ((run_all to_ns runs (init_module true 1000 5000 left_overs).0).stats.jiff.max ≡ 504)
    × ((run_all to_ns runs (init_module true 1000 5000 left_overs).0).stats.jiff.min ≡ 500)
    × ((run_all to_ns runs (init_module true 1000 5000 left_overs).0).stats.cycles.max ≡ 2500)
    × ((run_all to_ns runs (init_module true 1000 5000 left_overs).0).stats.cycles.min ≡ 2000)
    × IsConverted to_ns 3 4
        (run_all to_ns runs (init_module true 1000 5000 left_overs).0).stats.jiff
        (run_all to_ns runs (init_module true 1000 5000 left_overs).0).stats.nanosecs
run_all-init_module_example = run_all-init_module to_ns 1000 5000 left_overs runs
