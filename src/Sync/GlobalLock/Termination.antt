-- ===== src/Sync/GlobalLock/Termination.antt =====
-- Both threads finish.
use c_advanced_problems.Prelude.{ℕ, ◌*◌, ◌<◌, ◌≤◌, ◌≡◌, refl, true, none, some, List, ◌++◌, arith}
use c_advanced_problems.Sync.Interleaving.{run}
use c_advanced_problems.Sync.Termination.{rounds, rounds-finish, either-progress}
use c_advanced_problems.Sync.GlobalLock.{
  Shared, Pc, lock_g, lock_m1, then_m2, lock_m2, then_m1, unlock_m1, unlock_m2, unlock_g, finished,
  step, start,
}
use c_advanced_problems.Sync.GlobalLock.Laws.{can_step, has_finished, never_crossed}

-- How many steps a thread has left.
rank : Pc → ℕ
rank (lock_g argument) = 6
rank lock_m1 = 5
rank then_m2 = 4
rank lock_m2 = 5
rank then_m1 = 4
rank unlock_m1 = 3
rank unlock_m2 = 2
rank unlock_g = 1
rank finished = 0

drops : (m m' : Shared) (p p' : Pc) → step m p ≡ some (m', p') → rank p' < rank p
unfolding step rank
drops m m' (lock_g argument) p' e = ground (arith, e)
drops m m' _ p' e = ground (arith, e)

finished-stays : (m : Shared) (p : Pc) → has_finished p ≡ true → step m p ≡ none
unfolding step
finished-stays m finished e = refl
finished-stays m _ e = ground (arith, e)

rank-le : (p : Pc) → rank p ≤ 6
unfolding rank
rank-le (lock_g argument) = omega arith
rank-le _ = omega arith

-- Whatever has happened before, 12 rounds of turns finish both threads.
pub global_lock_finish :
    (is : List ℕ) (i : ℕ)
    → i < 2
    → has_finished ((run step 2 (is ++ rounds 2 (2 * 6)) start).pc i) ≡ true
global_lock_finish =
    rounds-finish step 2 rank drops has_finished finished-stays start
      (λ is.
        let s = run step 2 is start in
        either-progress (λ j. can_step s.shared (s.pc j)) (λ j. has_finished (s.pc j))
          (never_crossed is))
      6 rank-le
