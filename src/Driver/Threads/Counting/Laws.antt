-- ===== src/Driver/Threads/Counting/Laws.antt =====
-- Unloading ends, and reports all that has been counted.
use c_advanced_problems.Prelude.{
  ℕ, ◌+◌, ◌-◌, ◌*◌, ◌<◌, ◌≤◌, ◌≡◌, refl, ◌⊎◌, inl, inr, Bool, true, false, Option, none, some, List,
  ◌++◌, ◌||◌, ◌&&◌, arith, Bool-cases,
}
use c_advanced_problems.Sync.Interleaving.{run, run-keeps_three}
use c_advanced_problems.Sync.Termination.{run-append, rounds, rounds-finish, three-progress}
use c_advanced_problems.Driver.Threads.Counting.{
  Shared, Pc, test, lock, load, store, unlock, sleep, complete, thread_finished, kill_1, kill_2,
  wait_1, wait_2, report, exit_finished, freed_used, step, start,
}
use c_advanced_problems.Driver.Threads.Counting.Invariant.{Counted, counted, run-Counted}

abbrev can_step : Shared → Pc → Bool
can_step m p = elim (step m p) [ none ↦ false | some r ↦ true ]

abbrev pub has_finished : Pc → Bool
has_finished (thread_finished made) = true
has_finished (exit_finished printed) = true
has_finished freed_used = true
has_finished _ = false

-- One of the three can go on, or all have finished.
Counted-steps :
    (m : Shared) (p q r : Pc)
    → Counted m p q r
    → ((can_step m p || can_step m q) || can_step m r)
        || ((has_finished p && has_finished q) && has_finished r)
      ≡ true
unfolding step
Counted-steps m (lock who i) q r h = ground (arith, h)
Counted-steps m _ _ _ h = ground (arith, h)

-- How many steps a thread or ModExit has left.
rank : Pc → ℕ
rank (test who i) = 6 * (2 - i) + 2
rank (lock who i) = 6 * (1 - i) + 7
rank (load who i) = 6 * (1 - i) + 6
rank (store who i loaded) = 6 * (1 - i) + 5
rank (unlock who i) = 6 * (1 - i) + 4
rank (sleep who i) = 6 * (1 - i) + 3
rank (complete who made) = 1
rank (thread_finished made) = 0
rank kill_1 = 5
rank kill_2 = 4
rank wait_1 = 3
rank wait_2 = 2
rank report = 1
rank (exit_finished printed) = 0
rank freed_used = 0

drops : (m m' : Shared) (p p' : Pc) → step m p ≡ some (m', p') → rank p' < rank p
unfolding step rank
drops m m' (test who i) p' e = ground (arith, e)
drops m m' kill_1 p' e = ground (arith, e)
drops m m' kill_2 p' e = ground (arith, e)
drops m m' _ p' e = ground (arith, e)

finished-stays : (m : Shared) (p : Pc) → has_finished p ≡ true → step m p ≡ none
unfolding step
finished-stays m (thread_finished made) e = refl
finished-stays m (exit_finished printed) e = refl
finished-stays m freed_used e = refl
finished-stays m _ e = ground (arith, e)

rank-le : (p : Pc) → rank p ≤ 14
unfolding rank
rank-le kill_1 = omega arith
rank-le _ = omega arith

all_finish :
    (is : List ℕ) (i : ℕ)
    → i < 3
    → has_finished ((run step 3 (is ++ rounds 3 (3 * 14)) start).pc i) ≡ true
all_finish =
    rounds-finish step 3 rank drops has_finished finished-stays start
      (λ is.
        let s = run step 3 is start in
        three-progress (λ j. can_step s.shared (s.pc j)) (λ j. has_finished (s.pc j))
          (Counted-steps _ _ _ _ (run-Counted is)))
      14 rank-le

-- What ModExit has printed, once it has returned.
abbrev pub printed_by : Pc → Option ℕ
printed_by (exit_finished printed) = some printed
printed_by _ = none

-- ModExit has sent both signals.
abbrev pub has_sent : Pc → Bool
has_sent wait_1 = true
has_sent wait_2 = true
has_sent report = true
has_sent (exit_finished printed) = true
has_sent _ = false

stays-sent :
    (m m' : Shared) (r r' : Pc) → step m r ≡ some (m', r') → has_sent r ≡ true → has_sent r' ≡ true
unfolding step
stays-sent m m' wait_1 r' e h = ground arith
stays-sent m m' wait_2 r' e h = ground arith
stays-sent m m' report r' e h = ground arith
stays-sent m m' (exit_finished printed) r' e h = absurd cc
stays-sent m m' _ r' e h = absurd cc

run-sent :
    (is js : List ℕ)
    → has_sent ((run step 3 is start).pc 2) ≡ true
    → has_sent ((run step 3 (is ++ js) start).pc 2) ≡ true
run-sent is js h = rw (run-append step 3 is js start) (
    run-keeps_three step 3 refl (λ m p q r. has_sent r ≡ true) (λ m m' p p' q r e k. k)
      (λ m m' p q q' r e k. k) (λ m m' p q r r' e k. stays-sent m m' r r' e k) js
      (run step 3 is start) h)

Counted-printed :
    (m : Shared) (p q r : Pc)
    → Counted m p q r
    → has_finished r ≡ true
    → has_sent r ≡ true
    → printed_by r ≡ some (counted p + counted q)
Counted-printed m p q (exit_finished printed) h e k = ground (arith, h)
Counted-printed m p q (thread_finished made) h e k = absurd cc
Counted-printed m p q freed_used h e k = absurd cc
Counted-printed m p q _ h e k = ground (arith, h, e)

Counted-joined :
    (m : Shared) (p q r : Pc)
    → Counted m p q r
    → (printed_by r ≡ none) ⊎ ((has_finished p ≡ true) × (has_finished q ≡ true))
Counted-joined m (lock who i) q r h = ground (arith, h)
Counted-joined m _ _ _ h = ground (arith, h)

-- Whatever the threads have done and whenever ModExit begins, ModExit has returned only where both
-- threads have. Once it has sent both signals, which supposes that neither thread had ended before its
-- signal, 42 further rounds of turns make it return and print how often the two threads have counted
-- together: unloading does not wait for ever, and no increment is lost.
pub exit_reports_all :
    (is : List ℕ)
    → ((printed_by ((run step 3 is start).pc 2) ≡ none)
        ⊎ ((has_finished ((run step 3 is start).pc 0) ≡ true)
            × (has_finished ((run step 3 is start).pc 1) ≡ true)))
      × ((has_sent ((run step 3 is start).pc 2) ≡ false)
          ⊎ (printed_by ((run step 3 (is ++ rounds 3 42) start).pc 2)
              ≡ some (
                  counted ((run step 3 (is ++ rounds 3 42) start).pc 0)
                  + counted ((run step 3 (is ++ rounds 3 42) start).pc 1))))
exit_reports_all is = (
  Counted-joined _ _ _ _ (run-Counted is),
  elim (Bool-cases (has_sent ((run step 3 is start).pc 2))) [
    | inl sent ↦ inr (
        Counted-printed _ _ _ _ (run-Counted (is ++ rounds 3 42)) (all_finish is 2 (omega arith))
          (run-sent is (rounds 3 42) sent))
    | inr unsent ↦ inl unsent
  ],
)
