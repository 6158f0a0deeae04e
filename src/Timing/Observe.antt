-- ===== src/Timing/Observe.antt =====
-- What one observation does to the statistics, and the extremes of a list of delays.
use Prim.Native.Nat.{max}
use c_advanced_problems.Prelude.{ℕ, ◌≤◌, ◌≡◌, List, [], ◌∷◌, arith, min, ◌==◌, if◌then◌else◌}
use c_advanced_problems.Driver.User.{sub64}
use c_advanced_problems.Timing.Times.{Times, Statistics, ulong_max, observe, observe_nanosecs}

abbrev pub greatest : List ℕ → ℕ
greatest [] = 0
greatest (d ∷ ds) = max d (greatest ds)

-- The least of some values of an `unsigned long`.
abbrev pub least : List ℕ → ℕ
least [] = ulong_max
least (d ∷ ds) = min d (least ds)

pub observe-max : (now : ℕ) (t : Times) → (observe now t).max ≡ max t.max (sub64 now t.prev)
unfolding observe
observe-max now t = ground arith

pub observe-min : (now : ℕ) (t : Times) → (observe now t).min ≡ min t.min (sub64 now t.prev)
unfolding observe
observe-min now t = ground arith

-- The extremes in nanoseconds are those in jiffies, converted, as soon as one was taken over; until
-- then they are `top` and `bottom`.
pub record IsConverted (to_ns : ℕ → ℕ) (top bottom : ℕ) (jiff nanosecs : Times) : Type 0 where
  pub longest : nanosecs.max ≡ (if jiff.max == 0 then top else to_ns jiff.max)
  pub shortest : nanosecs.min ≡ (if jiff.min == ulong_max then bottom else to_ns jiff.min)
  pub in_range : jiff.min ≤ ulong_max

pub observe-IsConverted :
    (to_ns : ℕ → ℕ) (top bottom now : ℕ) (jiff nanosecs : Times)
    → IsConverted to_ns top bottom jiff nanosecs
    → IsConverted to_ns top bottom (observe now jiff) (observe_nanosecs to_ns now jiff nanosecs)
unfolding observe observe_nanosecs
observe-IsConverted to_ns top bottom now jiff nanosecs h = ground arith

-- `s` is `t` after delays of `js` jiffies and `cs` cycles.
pub record Observed (t s : Statistics) (js cs : List ℕ) : Type 0 where
  pub jiff_max : s.jiff.max ≡ max t.jiff.max (greatest js)
  pub jiff_min : s.jiff.min ≡ min t.jiff.min (least js)
  pub cycles_max : s.cycles.max ≡ max t.cycles.max (greatest cs)
  pub cycles_min : s.cycles.min ≡ min t.cycles.min (least cs)

pub least-le : (ds : List ℕ) → least ds ≤ ulong_max
least-le [] = omega arith
least-le (d ∷ ds) = omega (arith, least-le ds)
