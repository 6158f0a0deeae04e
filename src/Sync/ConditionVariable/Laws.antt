-- ===== src/Sync/ConditionVariable/Laws.antt =====
-- The order of the two lines, and that no signal is missed.
use c_advanced_problems.Prelude.{
  ℕ, zero, suc, ◌+◌, ◌*◌, ◌<◌, ◌≤◌, ◌≡◌, refl, Bool, true, false, none, some, List, ◌++◌, ◌||◌,
  ◌&&◌, arith,
}
use c_advanced_problems.Prelude.Tally.{tally, tally-suc, tally-each}
use c_advanced_problems.Sync.Interleaving.{System, run}
use c_advanced_problems.Sync.Termination.{rounds, rounds-finish_within, three-progress}
use c_advanced_problems.Sync.ConditionVariable.{
  Shared, Pc, print_first, lock_done, set_done, signal, unlock_done, worker_finished, lock_wait,
  test, wait, asleep, relock, unlock_wait, print_last, main_finished, spurious, step, start,
}
use c_advanced_problems.Sync.ConditionVariable.Invariant.{Synced, run-Synced}

Synced-lines : (m : Shared) (p q r : Pc) → Synced m p q r → m.last_lines ≤ m.first_lines
Synced-lines m main_finished print_first r h = ground (arith, h)
Synced-lines m _ _ _ h = ground (arith, h)

abbrev can_step : Shared → Pc → Bool
can_step m p = elim (step m p) [ none ↦ false | some r ↦ true ]

abbrev has_finished : Pc → Bool
has_finished worker_finished = true
has_finished main_finished = true
has_finished (spurious zero) = true
has_finished _ = false

Synced-steps :
    (m : Shared) (p q r : Pc)
    → Synced m p q r
    → ((can_step m p || can_step m q) || can_step m r)
        || ((has_finished p && has_finished q) && has_finished r)
      ≡ true
unfolding step
Synced-steps m asleep lock_done (spurious zero) h = ground (arith, h)
Synced-steps m _ _ (spurious zero) h = ground (arith, h)
Synced-steps m _ _ (spurious (suc left)) h = ground (arith, h)
Synced-steps m _ _ _ h = ground (arith, h)

-- How many steps a thread has left; a thread that is woken pays for its second test.
rank : Pc → ℕ
rank print_first = 15
rank lock_done = 14
rank set_done = 13
rank signal = 12
rank unlock_done = 1
rank worker_finished = 0
rank lock_wait = 6
rank test = 5
rank wait = 4
rank asleep = 3
rank relock = 6
rank unlock_wait = 2
rank print_last = 1
rank main_finished = 0
rank (spurious left) = 11 * left

abbrev pays : Shared → ℕ
pays m = 10 * m.woken

drops : (m m' : Shared) (p p' : Pc) → step m p ≡ some (m', p') → pays m' + rank p' < pays m + rank p
unfolding step rank
drops m m' lock_wait p' e = ground (arith, e)
drops m m' (spurious zero) p' e = ground (arith, e)
drops m m' (spurious (suc left)) p' e = ground (arith, e)
drops m m' _ p' e = ground (arith, e)

finished-stays : (m : Shared) (p : Pc) → has_finished p ≡ true → step m p ≡ none
unfolding step
finished-stays m worker_finished e = refl
finished-stays m main_finished e = refl
finished-stays m (spurious zero) e = refl
finished-stays m (spurious (suc left)) e = absurd cc
finished-stays m _ e = ground (arith, e)

start-rank : (wakeups : ℕ) → tally rank 3 (start wakeups).pc ≡ 21 + 11 * wakeups
unfolding rank
start-rank wakeups =
    let pc = (start wakeups).pc in
    omega (
      arith,
      tally-suc rank 2 pc,
      tally-suc rank 1 pc,
      tally-suc rank 0 pc,
      tally-each rank 0 0 pc (λ i h. absurd (omega (arith, h))),
    )

-- The threads after a schedule and enough rounds of turns.
abbrev pub ended : (wakeups : ℕ) → List ℕ → System Shared Pc
ended wakeups is = run step 3 (is ++ rounds 3 (21 + 11 * wakeups)) (start wakeups)

threads_finish :
    (wakeups : ℕ) (is : List ℕ) (i : ℕ) → i < 3 → has_finished ((ended wakeups is).pc i) ≡ true
threads_finish wakeups =
    rounds-finish_within step 3 pays rank drops has_finished finished-stays (start wakeups)
      (λ is.
        let s = run step 3 is (start wakeups) in
        three-progress (λ j. can_step s.shared (s.pc j)) (λ j. has_finished (s.pc j))
          (Synced-steps _ _ _ _ (run-Synced wakeups is)))
      (21 + 11 * wakeups) (omega (arith, start-rank wakeups))

finished-lines :
    (m : Shared) (p q r : Pc) → Synced m p q r → has_finished p ≡ true → m.last_lines ≡ 1
finished-lines m main_finished q r h e = ground (arith, h)
finished-lines m _ q r h e = ground (arith, h, e)

-- Whatever the schedule, and however often up to `wakeups` times `main` is woken without a signal, the
-- last line has been printed at most as often as the first one; and 21 + 11 * wakeups further rounds of
-- turns print it, once: `main` does not miss the signal, whether it waits before or after it.
pub last_line_follows :
    (wakeups : ℕ) (is : List ℕ)
    → ((run step 3 is (start wakeups)).shared.last_lines
        ≤ (run step 3 is (start wakeups)).shared.first_lines)
      × ((ended wakeups is).shared.last_lines ≡ 1)
last_line_follows wakeups is = (
  Synced-lines _ _ _ _ (run-Synced wakeups is),
  finished-lines _ _ _ _ (run-Synced wakeups (is ++ rounds 3 (21 + 11 * wakeups)))
      (threads_finish wakeups is 0 (omega arith)),
)
