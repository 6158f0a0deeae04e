-- ===== src/Sync/ConditionVariable/Invariant.antt =====
-- What holds of the synchronizer while the threads run.
use c_advanced_problems.Prelude.{
  ℕ, zero, suc, ◌+◌, ◌≤◌, ◌≡◌, refl, Bool, true, false, some, List, arith,
}
use c_advanced_problems.Sync.Interleaving.{run, run-keeps_three}
use c_advanced_problems.Sync.ConditionVariable.{
  Shared, Pc, print_first, lock_done, set_done, signal, unlock_done, worker_finished, lock_wait,
  test, wait, asleep, relock, unlock_wait, print_last, main_finished, spurious, step, start,
}

-- The places of the spurious wakeups, those of `worker`, and those of `main`.
abbrev pub is_spurious : Pc → Bool
is_spurious (spurious left) = true
is_spurious _ = false

abbrev pub is_worker : Pc → Bool
is_worker print_first = true
is_worker lock_done = true
is_worker set_done = true
is_worker signal = true
is_worker unlock_done = true
is_worker worker_finished = true
is_worker _ = false

abbrev pub is_main : Pc → Bool
is_main lock_wait = true
is_main test = true
is_main wait = true
is_main asleep = true
is_main relock = true
is_main unlock_wait = true
is_main print_last = true
is_main main_finished = true
is_main _ = false

-- 1 where the thread holds the mutex.
abbrev pub holds : Pc → ℕ
holds set_done = 1
holds signal = 1
holds unlock_done = 1
holds test = 1
holds wait = 1
holds unlock_wait = 1
holds _ = 0

-- 1 where `main` sleeps.
abbrev pub sleeps : Pc → ℕ
sleeps asleep = 1
sleeps _ = 0

-- 1 where `worker` has set `done`, and where it has signalled.
abbrev pub has_set : Pc → ℕ
has_set signal = 1
has_set unlock_done = 1
has_set worker_finished = 1
has_set _ = 0

abbrev pub has_signalled : Pc → ℕ
has_signalled unlock_done = 1
has_signalled worker_finished = 1
has_signalled _ = 0

-- 1 where `main` is about to sleep.
abbrev pub will_wait : Pc → ℕ
will_wait wait = 1
will_wait _ = 0

-- 1 where `main` has seen `done`.
abbrev pub has_seen : Pc → ℕ
has_seen unlock_wait = 1
has_seen print_last = 1
has_seen main_finished = 1
has_seen _ = 0

abbrev pub has_printed_first : Pc → ℕ
has_printed_first print_first = 0
has_printed_first _ = 1

abbrev pub has_printed_last : Pc → ℕ
has_printed_last main_finished = 1
has_printed_last _ = 0

-- `p` is the place of `main`, `q` that of `worker`, `r` that of the spurious wakeups.
pub record Synced (m : Shared) (p q r : Pc) : Type 0 where
  pub main_place : is_main p ≡ true
  pub worker_place : is_worker q ≡ true
  pub spurious_place : is_spurious r ≡ true
  pub lock : m.lock + holds p + holds q ≡ 1
  pub done : m.done ≡ has_set q
  pub asleep : m.waiting + m.woken ≡ sleeps p
  pub not_missed : (sleeps p + will_wait p) + has_signalled q ≤ 1 + m.woken
  pub not_set : will_wait p + has_set q ≤ 1
  pub seen : has_seen p ≤ m.done
  pub first_lines : m.first_lines ≡ has_printed_first q
  pub last_lines : m.last_lines ≡ has_printed_last p

first-Synced :
    (m m' : Shared) (p p' q r : Pc) → step m p ≡ some (m', p') → Synced m p q r → Synced m' p' q r
unfolding step
first-Synced m m' lock_wait p' q r e h = ground arith
first-Synced m m' _ p' q r e h = ground arith

second-Synced :
    (m m' : Shared) (p q q' r : Pc) → step m q ≡ some (m', q') → Synced m p q r → Synced m' p q' r
unfolding step
second-Synced m m' p lock_done q' r e h = ground arith
second-Synced m m' p _ q' r e h = ground arith

third-Synced :
    (m m' : Shared) (p q r r' : Pc) → step m r ≡ some (m', r') → Synced m p q r → Synced m' p q r'
unfolding step
third-Synced m m' p q (spurious zero) r' e h = ground arith
third-Synced m m' p q (spurious (suc left)) r' e h = ground arith
third-Synced m m' p q _ r' e h = ground arith

pub run-Synced :
    (wakeups : ℕ) (is : List ℕ)
    → Synced
        (run step 3 is (start wakeups)).shared
        ((run step 3 is (start wakeups)).pc 0)
        ((run step 3 is (start wakeups)).pc 1)
        ((run step 3 is (start wakeups)).pc 2)
run-Synced wakeups is =
    run-keeps_three step 3 refl Synced first-Synced second-Synced third-Synced is (start wakeups)
      (ground arith)
