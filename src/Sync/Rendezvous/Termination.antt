-- ===== src/Sync/Rendezvous/Termination.antt =====
-- Both children finish.
use c_advanced_problems.Prelude.{ℕ, ◌*◌, ◌<◌, ◌≤◌, ◌≡◌, refl, true, none, some, List, ◌++◌, arith}
use c_advanced_problems.Sync.Interleaving.{run}
use c_advanced_problems.Sync.Termination.{rounds, rounds-finish, either-progress}
use c_advanced_problems.Sync.Rendezvous.{
  Shared, Pc, before_1, post_1, wait_1, after_1, before_2, post_2, wait_2, after_2, finished_1,
  finished_2, step, start,
}
use c_advanced_problems.Sync.Rendezvous.Laws.{can_step, has_finished, children_meet}

-- How many steps a thread has left.
rank : Pc → ℕ
rank before_1 = 4
rank post_1 = 3
rank wait_1 = 2
rank after_1 = 1
rank before_2 = 4
rank post_2 = 3
rank wait_2 = 2
rank after_2 = 1
rank finished_1 = 0
rank finished_2 = 0

drops : (m m' : Shared) (p p' : Pc) → step m p ≡ some (m', p') → rank p' < rank p
unfolding step rank
drops m m' before_1 p' e = ground (arith, e)
drops m m' _ p' e = ground (arith, e)

finished-stays : (m : Shared) (p : Pc) → has_finished p ≡ true → step m p ≡ none
unfolding step
finished-stays m finished_1 e = refl
finished-stays m finished_2 e = refl
finished-stays m _ e = ground (arith, e)

rank-le : (p : Pc) → rank p ≤ 4
unfolding rank
rank-le before_1 = omega arith
rank-le _ = omega arith

-- Whatever has happened before, 8 rounds of turns finish both children.
rendezvous_finish :
    (is : List ℕ) (i : ℕ)
    → i < 2
    → has_finished ((run step 2 (is ++ rounds 2 (2 * 4)) start).pc i) ≡ true
rendezvous_finish =
    rounds-finish step 2 rank drops has_finished finished-stays start
      (λ is.
        let s = run step 2 is start in
        either-progress (λ j. can_step s.shared (s.pc j)) (λ j. has_finished (s.pc j))
          (children_meet is))
      4 rank-le
