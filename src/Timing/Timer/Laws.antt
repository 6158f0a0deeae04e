-- ===== src/Timing/Timer/Laws.antt =====
-- The statistics of mytimer against the delays between the firings.
use c_advanced_problems.Prelude.{ℕ, ◌≤◌, ◌≡◌, refl, List, [], ◌∷◌, arith}
use c_advanced_problems.Driver.User.{sub64}
use c_advanced_problems.Timing.Times.{ulong_max, observe_all}
use c_advanced_problems.Timing.Observe.{
  greatest, least, observe-max, observe-min, IsConverted, observe-IsConverted, Observed, least-le,
}
use c_advanced_problems.Timing.Timer.{Timer, timer_init, timer_func, fire_all}

-- The delays in jiffies, from a firing at `prev` on, and in cycles.
abbrev pub jiffy_delays : (prev : ℕ) → List (ℕ × ℕ) → List ℕ
jiffy_delays prev [] = []
jiffy_delays prev ((j, cyc) ∷ ts) = sub64 j prev ∷ jiffy_delays j ts

abbrev pub cycle_delays : (prev : ℕ) → List (ℕ × ℕ) → List ℕ
cycle_delays prev [] = []
cycle_delays prev ((j, cyc) ∷ ts) = sub64 cyc prev ∷ cycle_delays cyc ts

module _ (hz : ℕ) (to_ns : ℕ → ℕ) where
  fire_all-Observed :
      (ts : List (ℕ × ℕ)) (t : Timer)
      → t.stats.jiff.min ≤ ulong_max
      → t.stats.cycles.min ≤ ulong_max
      → Observed t.stats
          (fire_all hz to_ns ts t).stats
          (jiffy_delays t.stats.jiff.prev ts)
          (cycle_delays t.stats.cycles.prev ts)
  unfolding fire_all timer_func observe_all
  fire_all-Observed [] t h g = omega arith
  fire_all-Observed ((j, cyc) ∷ ts) t h g = omega (
    arith,
    observe-max,
    observe-min,
    fire_all-Observed ts (timer_func hz to_ns j cyc t) (omega (arith, observe-min j t.stats.jiff))
        (omega (arith, observe-min cyc t.stats.cycles)),
  )

  fire_all-IsConverted :
      (top bottom : ℕ) (ts : List (ℕ × ℕ)) (t : Timer)
      → IsConverted to_ns top bottom t.stats.jiff t.stats.nanosecs
      → IsConverted to_ns top bottom
          (fire_all hz to_ns ts t).stats.jiff
          (fire_all hz to_ns ts t).stats.nanosecs
  unfolding fire_all timer_func observe_all
  fire_all-IsConverted top bottom [] t h = h
  fire_all-IsConverted top bottom ((j, cyc) ∷ ts) t h =
      fire_all-IsConverted top bottom ts (timer_func hz to_ns j cyc t) (
        let c = observe-IsConverted to_ns top bottom j t.stats.jiff t.stats.nanosecs h in
        ground (arith, c))

  -- Once the timer has fired at the clocks `ts`, the extremes in jiffies and in cycles are the
  -- greatest and the least delay between firings (modulo 2 ^ 64), counted from the loading, and those
  -- in nanoseconds are the jiffies' converted, unless no delay was above 0 or below 2 ^ 64 - 1.
  fire_all-timer_init :
      (j cyc : ℕ) (ts : List (ℕ × ℕ))
      → ((fire_all hz to_ns ts (timer_init hz j cyc)).stats.jiff.max ≡ greatest (jiffy_delays j ts))
        × ((fire_all hz to_ns ts (timer_init hz j cyc)).stats.jiff.min ≡ least (jiffy_delays j ts))
        × ((fire_all hz to_ns ts (timer_init hz j cyc)).stats.cycles.max
            ≡ greatest (cycle_delays cyc ts))
        × ((fire_all hz to_ns ts (timer_init hz j cyc)).stats.cycles.min
            ≡ least (cycle_delays cyc ts))
        × IsConverted to_ns 0 ulong_max
            (fire_all hz to_ns ts (timer_init hz j cyc)).stats.jiff
            (fire_all hz to_ns ts (timer_init hz j cyc)).stats.nanosecs
  unfolding timer_init
  fire_all-timer_init j cyc ts =
      let o = fire_all-Observed ts (timer_init hz j cyc) (omega arith) (omega arith) in
      (
        omega (arith, o),
        omega (arith, o, least-le (jiffy_delays j ts)),
        omega (arith, o),
        omega (arith, o, least-le (cycle_delays cyc ts)),
        fire_all-IsConverted 0 ulong_max ts (timer_init hz j cyc)
            (record { longest = refl; shortest = refl; in_range = omega arith }),
      )
