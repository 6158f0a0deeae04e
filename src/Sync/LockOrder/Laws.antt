-- ===== src/Sync/LockOrder/Laws.antt =====
-- When the two threads of `main-deadlock.c` block one another.
use c_advanced_problems.Prelude.{
  ℕ, zero, suc, ◌+◌, ◌<◌, ◌≡◌, refl, Bool, true, false, none, some, List, arith, ◌||◌, ◌&&◌,
}
use c_advanced_problems.Sync.Interleaving.{System, run, run-keeps_two, run-blocked}
use c_advanced_problems.Sync.LockOrder.{
  Shared, Pc, lock_m1, then_m2, lock_m2, then_m1, unlock_m1, unlock_m2, finished, step, start,
}

-- 1 where the place `p` holds `m1`.
abbrev holds_m1 : Pc → ℕ
holds_m1 then_m2 = 1
holds_m1 unlock_m1 = 1
holds_m1 _ = 0

abbrev holds_m2 : Pc → ℕ
holds_m2 then_m1 = 1
holds_m2 unlock_m1 = 1
holds_m2 unlock_m2 = 1
holds_m2 _ = 0

-- The places of the thread with argument 0, and of the other.
abbrev is_first : Pc → Bool
is_first lock_m2 = false
is_first then_m1 = false
is_first _ = true

abbrev is_second : Pc → Bool
is_second lock_m1 = false
is_second then_m2 = false
is_second _ = true

record Held (m : Shared) (p q : Pc) : Type 0 where
  m1_held : m.m1 + holds_m1 p + holds_m1 q ≡ 1
  m2_held : m.m2 + holds_m2 p + holds_m2 q ≡ 1
  first : is_first p ≡ true
  second : is_second q ≡ true

first-Held : (m m' : Shared) (p p' q : Pc) → step m p ≡ some (m', p') → Held m p q → Held m' p' q
unfolding step
first-Held m m' lock_m1 p' q e h = ground arith
first-Held m m' _ p' q e h = ground arith

second-Held : (m m' : Shared) (p q q' : Pc) → step m q ≡ some (m', q') → Held m p q → Held m' p q'
unfolding step
second-Held m m' p lock_m1 q' e h = ground arith
second-Held m m' p _ q' e h = ground arith

run-Held :
    (is : List ℕ)
    → Held (run step 2 is start).shared ((run step 2 is start).pc 0) ((run step 2 is start).pc 1)
run-Held is =
    run-keeps_two step 2 refl Held first-Held second-Held is start
      (record { m1_held = refl; m2_held = refl; first = refl; second = refl })

abbrev pub can_step : Shared → Pc → Bool
can_step m p = elim (step m p) [ none ↦ false | some r ↦ true ]

abbrev pub has_finished : Pc → Bool
has_finished finished = true
has_finished _ = false

-- Each has its first mutex and is about to take the other's.
abbrev pub are_crossed : Pc → Pc → Bool
are_crossed then_m2 then_m1 = true
are_crossed _ _ = false

Held-stuck :
    (m : Shared) (p q : Pc)
    → Held m p q
    → can_step m p ≡ false
    → can_step m q ≡ false
    → (has_finished p && has_finished q) || are_crossed p q ≡ true
unfolding step
Held-stuck m lock_m1 q h e f = ground arith
Held-stuck m _ lock_m1 h e f = ground arith
Held-stuck m _ _ h e f = ground arith

Held-crossed :
    (m : Shared) (p q : Pc)
    → Held m p q
    → are_crossed p q ≡ true
    → (step m p ≡ none) × (step m q ≡ none)
unfolding step
Held-crossed m then_m2 then_m1 h e = (ground (arith, h), ground (arith, h))
Held-crossed m _ _ h e = cc

-- Whatever the schedule, two threads of which neither can go on have either both returned or each hold
-- the mutex that the other one is about to take.
stuck_only_crossed :
    (is : List ℕ)
    → can_step (run step 2 is start).shared ((run step 2 is start).pc 0) ≡ false
    → can_step (run step 2 is start).shared ((run step 2 is start).pc 1) ≡ false
    → (has_finished ((run step 2 is start).pc 0) && has_finished ((run step 2 is start).pc 1))
        || are_crossed ((run step 2 is start).pc 0) ((run step 2 is start).pc 1)
      ≡ true
stuck_only_crossed is = Held-stuck _ _ _ (run-Held is)

blocked_below_two :
    (s : System Shared Pc)
    → step s.shared (s.pc 0) ≡ none
    → step s.shared (s.pc 1) ≡ none
    → (i : ℕ) → i < 2
    → step s.shared (s.pc i) ≡ none
blocked_below_two s e f zero h = e
blocked_below_two s e f (suc zero) h = f
blocked_below_two s e f (suc (suc i)) h = absurd (omega arith)

-- Once each thread holds the mutex that the other one is about to take, no schedule changes anything
-- any more.
pub crossed-run :
    (is later : List ℕ)
    → are_crossed ((run step 2 is start).pc 0) ((run step 2 is start).pc 1) ≡ true
    → run step 2 later (run step 2 is start) ≡ run step 2 is start
crossed-run is later c =
    let (e, f) = Held-crossed _ _ _ (run-Held is) c in
    run-blocked step 2 _ (blocked_below_two (run step 2 is start) e f) later
