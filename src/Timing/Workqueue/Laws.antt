-- ===== src/Timing/Workqueue/Laws.antt =====
-- The statistics of myworkqueue against the delays from one run's end to the next run.
use c_advanced_problems.Prelude.{ℕ, ◌≤◌, ◌≡◌, refl, List, [], ◌∷◌, arith, true}
use c_advanced_problems.Driver.User.{sub64}
use c_advanced_problems.Timing.Times.{Statistics, ulong_max, observe_all}
use c_advanced_problems.Timing.Observe.{
  greatest, least, least-le, observe-max, observe-min, IsConverted, observe-IsConverted, Observed,
}
use c_advanced_problems.Timing.Workqueue.{Queue, Clocks, init_module, work_func, run_all}

abbrev pub jiffy_delays : (prev : ℕ) → List Clocks → List ℕ
jiffy_delays prev [] = []
jiffy_delays prev (c ∷ cs) = sub64 c.jiffies prev ∷ jiffy_delays c.jiffies_end cs

abbrev pub cycle_delays : (prev : ℕ) → List Clocks → List ℕ
cycle_delays prev [] = []
cycle_delays prev (c ∷ cs) = sub64 c.cycles prev ∷ cycle_delays c.cycles_end cs

module _ (to_ns : ℕ → ℕ) where
  run_all-Observed :
      (cs : List Clocks) (q : Queue)
      → q.stats.jiff.min ≤ ulong_max
      → q.stats.cycles.min ≤ ulong_max
      → Observed q.stats
          (run_all to_ns cs q).stats
          (jiffy_delays q.stats.jiff.prev cs)
          (cycle_delays q.stats.cycles.prev cs)
  unfolding run_all work_func observe_all
  run_all-Observed [] q h g = omega arith
  run_all-Observed (c ∷ cs) q h g = omega (
    arith,
    observe-max,
    observe-min,
    run_all-Observed cs (work_func to_ns c q) (omega (arith, observe-min c.jiffies q.stats.jiff))
        (omega (arith, observe-min c.cycles q.stats.cycles)),
  )

  run_all-IsConverted :
      (top bottom : ℕ) (cs : List Clocks) (q : Queue)
      → IsConverted to_ns top bottom q.stats.jiff q.stats.nanosecs
      → IsConverted to_ns top bottom
          (run_all to_ns cs q).stats.jiff
          (run_all to_ns cs q).stats.nanosecs
  unfolding run_all work_func observe_all
  run_all-IsConverted top bottom [] q h = h
  run_all-IsConverted top bottom (c ∷ cs) q h =
      let k = observe-IsConverted to_ns top bottom c.jiffies q.stats.jiff q.stats.nanosecs h in
      run_all-IsConverted top bottom cs (work_func to_ns c q) (ground (arith, k))

  -- Once the work has run at the clocks `cs`, the extremes in jiffies and in cycles are the greatest
  -- and the least delay from the end of a run to the next, and those in nanoseconds are the jiffies'
  -- converted; until a delay is above 0 or below 2 ^ 64 - 1 they are what the block held when it was
  -- allocated.
  pub run_all-init_module :
      (jiffies cycles : ℕ) (fresh : Statistics) (cs : List Clocks)
      → ((run_all to_ns cs (init_module true jiffies cycles fresh).0).stats.jiff.max
          ≡ greatest (jiffy_delays jiffies cs))
        × ((run_all to_ns cs (init_module true jiffies cycles fresh).0).stats.jiff.min
            ≡ least (jiffy_delays jiffies cs))
        × ((run_all to_ns cs (init_module true jiffies cycles fresh).0).stats.cycles.max
            ≡ greatest (cycle_delays cycles cs))
        × ((run_all to_ns cs (init_module true jiffies cycles fresh).0).stats.cycles.min
            ≡ least (cycle_delays cycles cs))
        × IsConverted to_ns fresh.nanosecs.max fresh.nanosecs.min
            (run_all to_ns cs (init_module true jiffies cycles fresh).0).stats.jiff
            (run_all to_ns cs (init_module true jiffies cycles fresh).0).stats.nanosecs
  unfolding init_module
  run_all-init_module jiffies cycles fresh cs =
      let q = (init_module true jiffies cycles fresh).0 in
      let o = run_all-Observed cs q (omega arith) (omega arith) in
      (
        omega (arith, o),
        omega (arith, o, least-le (jiffy_delays jiffies cs)),
        omega (arith, o),
        omega (arith, o, least-le (cycle_delays cycles cs)),
        run_all-IsConverted fresh.nanosecs.max fresh.nanosecs.min cs q
            (record { longest = refl; shortest = refl; in_range = omega arith }),
      )
