-- ===== src/Sync/NoStarveMutex/Termination.antt =====
-- Every worker finishes.
use c_advanced_problems.Prelude.{ℕ, ◌*◌, ◌<◌, ◌≤◌, ◌≡◌, refl, true, none, some, List, ◌++◌, arith}
use c_advanced_problems.Sync.Interleaving.{run}
use c_advanced_problems.Sync.Termination.{rounds, rounds-finish}
use c_advanced_problems.Sync.NoStarveMutex.{
  Shared, Pc, acquire, enter_room1, post_entered, pass_turnstile1, enter_room2, lock_room1,
  leave_room1, post_last, open_turnstile2, post_more, open_turnstile1, pass_turnstile2, leave_room2,
  load, store, release, release1, release2, finished, step, start,
}
use c_advanced_problems.Sync.NoStarveMutex.Safety.{critical_counts}
use c_advanced_problems.Sync.NoStarveMutex.Progress.{is_finished, workers-Progress}

-- How many steps a worker has left at most.
rank : Pc → ℕ
rank acquire = 15
rank enter_room1 = 14
rank post_entered = 13
rank pass_turnstile1 = 12
rank enter_room2 = 11
rank lock_room1 = 10
rank leave_room1 = 9
rank post_last = 8
rank open_turnstile2 = 7
rank post_more = 8
rank open_turnstile1 = 7
rank pass_turnstile2 = 6
rank leave_room2 = 5
rank load = 4
rank (store loaded) = 3
rank release = 2
rank release1 = 1
rank release2 = 1
rank finished = 0

drops : (m m' : Shared) (p p' : Pc) → step m p ≡ some (m', p') → rank p' < rank p
unfolding step rank
drops m m' acquire p' e = ground (arith, e)
drops m m' _ p' e = ground (arith, e)

finished-stays : (m : Shared) (p : Pc) → is_finished p ≡ true → step m p ≡ none
unfolding step
finished-stays m finished e = refl
finished-stays m _ e = ground (arith, e)

rank-le : (p : Pc) → rank p ≤ 15
unfolding rank
rank-le acquire = omega arith
rank-le _ = omega arith

workers_finish :
    (n : ℕ) (is : List ℕ) (i : ℕ)
    → i < n
    → is_finished ((run step n (is ++ rounds n (n * 15)) start).pc i) ≡ true
workers_finish n is =
    rounds-finish step n rank drops is_finished finished-stays start (workers-Progress n) 15 rank-le
      is

finished-place : (p : Pc) → is_finished p ≡ true → p ≡ finished
finished-place finished e = refl
finished-place _ e = ground (arith, e)

-- Whatever `n` workers have done before, 15 rounds of turns per worker finish all of them, and then
-- `critical` is `n`: no worker waits for ever, and no `critical++` is lost.
pub workers_count :
    (n : ℕ) (is : List ℕ) → (run step n (is ++ rounds n (n * 15)) start).shared.critical ≡ n
workers_count n is =
    critical_counts n (is ++ rounds n (n * 15)) (λ i h. finished-place _ (workers_finish n is i h))
