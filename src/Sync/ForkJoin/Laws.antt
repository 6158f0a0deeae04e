-- ===== src/Sync/ForkJoin/Laws.antt =====
-- The order of the two lines.
use c_advanced_problems.Prelude.{
  ℕ, ◌+◌, ◌<◌, ◌≤◌, ◌≡◌, refl, Bool, true, false, none, some, List, ◌++◌, ◌||◌, ◌&&◌, arith,
}
use c_advanced_problems.Sync.Interleaving.{run, run-keeps_two}
use c_advanced_problems.Sync.Termination.{rounds, rounds-finish, either-progress}
use c_advanced_problems.Sync.ForkJoin.{
  Shared, Pc, print_child, post, wait, print_end, child_finished, parent_finished, step, start,
}

-- The parent against the child.
abbrev is_parent : Pc → Bool
is_parent wait = true
is_parent print_end = true
is_parent parent_finished = true
is_parent _ = false

abbrev waited : Pc → ℕ
waited wait = 0
waited _ = 1

abbrev ended : Pc → ℕ
ended parent_finished = 1
ended _ = 0

abbrev printed : Pc → ℕ
printed print_child = 0
printed _ = 1

abbrev posted : Pc → ℕ
posted child_finished = 1
posted _ = 0

record Ordered (m : Shared) (p q : Pc) : Type 0 where
  parent : is_parent p ≡ true
  child : is_parent q ≡ false
  semaphore : m.s + waited p ≡ posted q
  child_lines : m.child_lines ≡ printed q
  end_lines : m.end_lines ≡ ended p

first-Ordered :
    (m m' : Shared) (p p' q : Pc) → step m p ≡ some (m', p') → Ordered m p q → Ordered m' p' q
unfolding step
first-Ordered m m' wait p' q e h = ground arith
first-Ordered m m' _ p' q e h = ground arith

second-Ordered :
    (m m' : Shared) (p q q' : Pc) → step m q ≡ some (m', q') → Ordered m p q → Ordered m' p q'
unfolding step
second-Ordered m m' p wait q' e h = ground arith
second-Ordered m m' p _ q' e h = ground arith

run-Ordered :
    (is : List ℕ)
    → Ordered (run step 2 is start).shared ((run step 2 is start).pc 0) ((run step 2 is start).pc 1)
run-Ordered is =
    run-keeps_two step 2 refl Ordered first-Ordered second-Ordered is start (record {
      parent = refl;
      child = refl;
      semaphore = refl;
      child_lines = refl;
      end_lines = refl;
    })

Ordered-lines : (m : Shared) (p q : Pc) → Ordered m p q → m.end_lines ≤ m.child_lines
Ordered-lines m parent_finished print_child h = ground (arith, h)
Ordered-lines m _ _ h = ground (arith, h)

abbrev can_step : Shared → Pc → Bool
can_step m p = elim (step m p) [ none ↦ false | some r ↦ true ]

abbrev has_finished : Pc → Bool
has_finished child_finished = true
has_finished parent_finished = true
has_finished _ = false

Ordered-steps :
    (m : Shared) (p q : Pc)
    → Ordered m p q
    → (can_step m p || can_step m q) || (has_finished p && has_finished q) ≡ true
unfolding step
Ordered-steps m wait child_finished h = ground (arith, h)
Ordered-steps m _ _ h = ground (arith, h)

rank : Pc → ℕ
rank print_child = 2
rank post = 1
rank wait = 2
rank print_end = 1
rank child_finished = 0
rank parent_finished = 0

drops : (m m' : Shared) (p p' : Pc) → step m p ≡ some (m', p') → rank p' < rank p
unfolding step rank
drops m m' wait p' e = ground (arith, e)
drops m m' _ p' e = ground (arith, e)

finished-stays : (m : Shared) (p : Pc) → has_finished p ≡ true → step m p ≡ none
unfolding step
finished-stays m child_finished e = refl
finished-stays m parent_finished e = refl
finished-stays m _ e = ground (arith, e)

rank-le : (p : Pc) → rank p ≤ 2
unfolding rank
rank-le wait = omega arith
rank-le _ = omega arith

threads_finish :
    (is : List ℕ) (i : ℕ) → i < 2 → has_finished ((run step 2 (is ++ rounds 2 4) start).pc i) ≡ true
threads_finish =
    rounds-finish step 2 rank drops has_finished finished-stays start
      (λ is.
        let s = run step 2 is start in
        either-progress (λ j. can_step s.shared (s.pc j)) (λ j. has_finished (s.pc j))
          (Ordered-steps _ _ _ (run-Ordered is)))
      2 rank-le

finished-lines : (m : Shared) (p q : Pc) → Ordered m p q → has_finished p ≡ true → m.end_lines ≡ 1
finished-lines m parent_finished q h e = ground (arith, h)
finished-lines m _ q h e = ground (arith, h, e)

-- Whatever the schedule, "parent: end" has been printed at most as often as "child", and four further
-- rounds of turns print it, once.
child_before_end :
    (is : List ℕ)
    → ((run step 2 is start).shared.end_lines ≤ (run step 2 is start).shared.child_lines)
      × ((run step 2 (is ++ rounds 2 4) start).shared.end_lines ≡ 1)
child_before_end is = (
  Ordered-lines _ _ _ (run-Ordered is),
  finished-lines _ _ _ (run-Ordered (is ++ rounds 2 4)) (threads_finish is 0 (omega arith)),
)
