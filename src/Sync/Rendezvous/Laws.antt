-- ===== src/Sync/Rendezvous/Laws.antt =====
-- What the comment at the top of `rendezvous.c` asks for.
use c_advanced_problems.Prelude.{
  ℕ, ◌+◌, ◌≡◌, refl, Bool, true, false, none, some, List, arith, ◌||◌, ◌&&◌, if◌then◌else◌,
}
use c_advanced_problems.Sync.Interleaving.{run, run-keeps_two}
use c_advanced_problems.Sync.Rendezvous.{
  Shared, Pc, before_1, post_1, wait_1, after_1, before_2, post_2, after_2, finished_1, finished_2,
  step, start,
}

-- Has printed "before", of either child.
abbrev pub has_arrived : Pc → Bool
has_arrived before_1 = false
has_arrived before_2 = false
has_arrived _ = true

-- May print "after" next, or has printed it.
abbrev pub has_met : Pc → Bool
has_met after_1 = true
has_met after_2 = true
has_met finished_1 = true
has_met finished_2 = true
has_met _ = false

abbrev pub has_finished : Pc → Bool
has_finished finished_1 = true
has_finished finished_2 = true
has_finished _ = false

-- 1 once the child has posted.
abbrev posted : Pc → ℕ
posted before_1 = 0
posted post_1 = 0
posted before_2 = 0
posted post_2 = 0
posted _ = 1

abbrev met : Pc → ℕ
met p = if has_met p then 1 else 0

abbrev is_child_1 : Pc → Bool
is_child_1 before_1 = true
is_child_1 post_1 = true
is_child_1 wait_1 = true
is_child_1 after_1 = true
is_child_1 finished_1 = true
is_child_1 _ = false

record Meeting (m : Shared) (p q : Pc) : Type 0 where
  one : m.one_arrived + met q ≡ posted p
  two : m.two_arrived + met p ≡ posted q
  child_1 : is_child_1 p ≡ true
  child_2 : is_child_1 q ≡ false

first-Meeting :
    (m m' : Shared) (p p' q : Pc) → step m p ≡ some (m', p') → Meeting m p q → Meeting m' p' q
unfolding step
first-Meeting m m' before_1 p' q e h = ground arith
first-Meeting m m' _ p' q e h = ground arith

second-Meeting :
    (m m' : Shared) (p q q' : Pc) → step m q ≡ some (m', q') → Meeting m p q → Meeting m' p q'
unfolding step
second-Meeting m m' p before_1 q' e h = ground arith
second-Meeting m m' p _ q' e h = ground arith

run-Meeting :
    (is : List ℕ)
    → Meeting (run step 2 is start).shared ((run step 2 is start).pc 0) ((run step 2 is start).pc 1)
run-Meeting is =
    run-keeps_two step 2 refl Meeting first-Meeting second-Meeting is start
      (record { one = refl; two = refl; child_1 = refl; child_2 = refl })

Meeting-arrived :
    (m : Shared) (p q : Pc)
    → Meeting m p q
    → has_met p || has_met q ≡ true
    → has_arrived p && has_arrived q ≡ true
Meeting-arrived m before_1 q h e = ground arith
Meeting-arrived m _ before_1 h e = ground arith
Meeting-arrived m _ _ h e = ground arith

abbrev pub can_step : Shared → Pc → Bool
can_step m p = elim (step m p) [ none ↦ false | some r ↦ true ]

Meeting-steps :
    (m : Shared) (p q : Pc)
    → Meeting m p q
    → (can_step m p || can_step m q) || (has_finished p && has_finished q) ≡ true
unfolding step
Meeting-steps m before_1 q h = ground arith
Meeting-steps m _ before_1 h = ground arith
Meeting-steps m _ _ h = ground arith

-- Whatever the schedule, when a child may print "after", both have printed "before".
pub after_both_before :
    (is : List ℕ)
    → has_met ((run step 2 is start).pc 0) || has_met ((run step 2 is start).pc 1) ≡ true
    → has_arrived ((run step 2 is start).pc 0) && has_arrived ((run step 2 is start).pc 1) ≡ true
after_both_before is = Meeting-arrived _ _ _ (run-Meeting is)

-- Whatever the schedule, one of the two children can go on, or both have returned.
pub children_meet :
    (is : List ℕ)
    → (can_step (run step 2 is start).shared ((run step 2 is start).pc 0)
          || can_step (run step 2 is start).shared ((run step 2 is start).pc 1))
        || (has_finished ((run step 2 is start).pc 0) && has_finished ((run step 2 is start).pc 1))
      ≡ true
children_meet is = Meeting-steps _ _ _ (run-Meeting is)
