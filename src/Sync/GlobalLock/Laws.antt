-- ===== src/Sync/GlobalLock/Laws.antt =====
-- When the two threads of `main-deadlock-global.c` can go on.
use c_advanced_problems.Prelude.{
  ℕ, ◌+◌, ◌≡◌, refl, Bool, true, false, none, some, List, arith, ◌||◌, ◌&&◌,
}
use c_advanced_problems.Sync.Interleaving.{run, run-keeps_two}
use c_advanced_problems.Sync.GlobalLock.{
  Shared, Pc, lock_g, lock_m1, then_m2, then_m1, unlock_m1, unlock_m2, finished, step, start,
}

-- 1 where the place `p` holds the mutex.
abbrev holds_g : Pc → ℕ
holds_g (lock_g argument) = 0
holds_g finished = 0
holds_g _ = 1

abbrev holds_m1 : Pc → ℕ
holds_m1 then_m2 = 1
holds_m1 unlock_m1 = 1
holds_m1 _ = 0

abbrev holds_m2 : Pc → ℕ
holds_m2 then_m1 = 1
holds_m2 unlock_m1 = 1
holds_m2 unlock_m2 = 1
holds_m2 _ = 0

record Held (m : Shared) (p q : Pc) : Type 0 where
  g_held : m.g + holds_g p + holds_g q ≡ 1
  m1_held : m.m1 + holds_m1 p + holds_m1 q ≡ 1
  m2_held : m.m2 + holds_m2 p + holds_m2 q ≡ 1

first-Held : (m m' : Shared) (p p' q : Pc) → step m p ≡ some (m', p') → Held m p q → Held m' p' q
unfolding step
first-Held m m' lock_m1 p' q e h = ground arith
first-Held m m' _ p' q e h = ground arith

second-Held : (m m' : Shared) (p q q' : Pc) → step m q ≡ some (m', q') → Held m p q → Held m' p q'
unfolding step
second-Held m m' p lock_m1 q' e h = ground arith
second-Held m m' p _ q' e h = ground arith

run-Held :
    (is : List ℕ)
    → Held (run step 2 is start).shared ((run step 2 is start).pc 0) ((run step 2 is start).pc 1)
run-Held is =
    run-keeps_two step 2 refl Held first-Held second-Held is start
      (record { g_held = refl; m1_held = refl; m2_held = refl })

abbrev pub can_step : Shared → Pc → Bool
can_step m p = elim (step m p) [ none ↦ false | some r ↦ true ]

abbrev pub has_finished : Pc → Bool
has_finished finished = true
has_finished _ = false

Held-steps :
    (m : Shared) (p q : Pc)
    → Held m p q
    → (can_step m p || can_step m q) || (has_finished p && has_finished q) ≡ true
unfolding step
Held-steps m lock_m1 q h = ground arith
Held-steps m _ lock_m1 h = ground arith
Held-steps m _ _ h = ground arith

-- Whatever the schedule, one of the two threads can go on, or both have returned.
pub never_crossed :
    (is : List ℕ)
    → (can_step (run step 2 is start).shared ((run step 2 is start).pc 0)
          || can_step (run step 2 is start).shared ((run step 2 is start).pc 1))
        || (has_finished ((run step 2 is start).pc 0) && has_finished ((run step 2 is start).pc 1))
      ≡ true
never_crossed is = Held-steps _ _ _ (run-Held is)
