-- ===== src/Sync/Barrier/Termination.antt =====
-- Every child finishes.
use c_advanced_problems.Prelude.{ℕ, ◌*◌, ◌<◌, ◌≤◌, ◌≡◌, refl, true, none, some, List, ◌++◌, arith}
use c_advanced_problems.Sync.Interleaving.{run}
use c_advanced_problems.Sync.Termination.{rounds, rounds-finish}
use c_advanced_problems.Sync.Barrier.{
  Shared, Pc, before, arrive, post_mutex, test, open_barrier, wait_barrier, post_barrier, after,
  finished, step, start,
}
use c_advanced_problems.Sync.Barrier.Laws.{is_finished, children-Progress}

-- How many steps a child has left at most.
rank : Pc → ℕ
rank before = 8
rank arrive = 7
rank post_mutex = 6
rank test = 5
rank open_barrier = 4
rank wait_barrier = 3
rank post_barrier = 2
rank after = 1
rank finished = 0

drops : (m m' : Shared) (p p' : Pc) → step m p ≡ some (m', p') → rank p' < rank p
unfolding step rank
drops m m' before p' e = ground (arith, e)
drops m m' _ p' e = ground (arith, e)

finished-stays : (m : Shared) (p : Pc) → is_finished p ≡ true → step m p ≡ none
unfolding step
finished-stays m finished e = refl
finished-stays m _ e = ground (arith, e)

rank-le : (p : Pc) → rank p ≤ 8
unfolding rank
rank-le before = omega arith
rank-le _ = omega arith

-- Whatever has happened before, 8 rounds of turns per child finish all of them.
pub children_finish :
    (n : ℕ) (is : List ℕ) (i : ℕ)
    → i < n
    → is_finished ((run step n (is ++ rounds n (n * 8)) (start n)).pc i) ≡ true
children_finish n is =
    rounds-finish step n rank drops is_finished finished-stays (start n) (children-Progress n) 8
      rank-le is
