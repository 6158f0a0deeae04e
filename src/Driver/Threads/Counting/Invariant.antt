-- ===== src/Driver/Threads/Counting/Invariant.antt =====
-- What holds while the threads count and the module is unloaded.
use c_advanced_problems.Prelude.{ℕ, ◌+◌, ◌≡◌, refl, Bool, true, false, some, List, arith}
use c_advanced_problems.Sync.Interleaving.{run, run-keeps_three}
use c_advanced_problems.Driver.Threads.Counting.{
  Shared, Pc, test, lock, load, store, unlock, sleep, complete, thread_finished, kill_1, kill_2,
  wait_1, wait_2, report, exit_finished, freed_used, step, start,
}

-- A thread against ModExit.
abbrev pub is_thread : Pc → Bool
is_thread kill_1 = false
is_thread kill_2 = false
is_thread wait_1 = false
is_thread wait_2 = false
is_thread report = false
is_thread (exit_finished printed) = false
is_thread freed_used = false
is_thread _ = true

abbrev pub holds : Pc → ℕ
holds (load who i) = 1
holds (store who i loaded) = 1
holds (unlock who i) = 1
holds _ = 0

-- How often a thread has counted.
abbrev pub counted : Pc → ℕ
counted (test who i) = i
counted (lock who i) = i
counted (load who i) = i
counted (store who i loaded) = i
counted (unlock who i) = i + 1
counted (sleep who i) = i + 1
counted (complete who made) = made
counted (thread_finished made) = made
counted _ = 0

abbrev pub has_ended : Pc → ℕ
has_ended (thread_finished made) = 1
has_ended _ = 0

-- How often ModExit has waited.
abbrev pub waited : Pc → ℕ
waited wait_2 = 1
waited report = 2
waited (exit_finished printed) = 2
waited _ = 0

abbrev pub IsFresh : Shared → Pc → Type 0
IsFresh m (store who i loaded) = m.counter ≡ loaded
IsFresh m _ = Unit

-- What ModExit has printed is what has been counted.
abbrev pub IsReport : Pc → ℕ → Type 0
IsReport (exit_finished printed) total = printed ≡ total
IsReport _ total = Unit

-- `p` and `q` are the places of the threads, `r` that of ModExit.
pub record Counted (m : Shared) (p q r : Pc) : Type 0 where
  pub first_place : is_thread p ≡ true
  pub second_place : is_thread q ≡ true
  pub exit_place : is_thread r ≡ false
  pub mutex : m.mutex + holds p + holds q ≡ 1
  pub completed : m.completed + waited r ≡ has_ended p + has_ended q
  pub counter : m.counter ≡ counted p + counted q
  pub first_fresh : IsFresh m p
  pub second_fresh : IsFresh m q
  pub report : IsReport r (counted p + counted q)

first-Counted :
    (m m' : Shared) (p p' q r : Pc) → step m p ≡ some (m', p') → Counted m p q r → Counted m' p' q r
unfolding step
first-Counted m m' (lock who i) p' q r e h = ground arith
first-Counted m m' _ p' q r e h = ground arith

second-Counted :
    (m m' : Shared) (p q q' r : Pc) → step m q ≡ some (m', q') → Counted m p q r → Counted m' p q' r
unfolding step
second-Counted m m' p (lock who i) q' r e h = ground arith
second-Counted m m' p _ q' r e h = ground arith

third-Counted :
    (m m' : Shared) (p q r r' : Pc) → step m r ≡ some (m', r') → Counted m p q r → Counted m' p q r'
unfolding step
third-Counted m m' p q kill_1 r' e h = ground arith
third-Counted m m' p q _ r' e h = ground arith

pub run-Counted :
    (is : List ℕ)
    → Counted
        (run step 3 is start).shared
        ((run step 3 is start).pc 0)
        ((run step 3 is start).pc 1)
        ((run step 3 is start).pc 2)
run-Counted is =
    run-keeps_three step 3 refl Counted first-Counted second-Counted third-Counted is start
      (ground arith)
