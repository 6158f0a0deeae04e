-- ===== src/Structures/SloppyCounter/Threads/Laws.antt =====
-- What `main` of sloppy-counter.c prints.
use c_advanced_problems.Prelude.{
  ℕ, zero, suc, ◌+◌, ◌-◌, ◌*◌, ◌≤◌, ◌<◌, ◌≡◌, refl, ap, some, arith, List, ◌++◌, true,
}
use c_advanced_problems.Prelude.Tally.{tally, tally-suc, tally-each}
use c_advanced_problems.Structures.SloppyCounter.Threads.{
  Shared, Pc, next_call, lock_local, load_local, store_local, test, lock_global, load_value,
  store_value, unlock_global, reset, unlock_local, ended_thread, create, join, get_lock, get_value,
  get_unlock, printed, step, start,
}
use c_advanced_problems.Structures.SloppyCounter.Threads.Invariant.{Role}
use c_advanced_problems.Structures.SloppyCounter.Threads.Totals.{
  run-IsSound, start-workers, start-main,
}
use c_advanced_problems.Structures.SloppyCounter.Threads.Progress.{
  is_finished, finished-stays, progress,
}
use c_advanced_problems.Sync.Interleaving.{System, run}
use c_advanced_problems.Sync.Termination.{rounds, rounds-finish_within}

module _ (n max t : ℕ) (found : (who left : ℕ) → ℕ) where
  -- How many statements a thread has left.
  rank : Pc → ℕ
  rank (next_call who left) = 11 * left + 1
  rank (lock_local who left id) = 11 * left + 11
  rank (load_local who left id) = 11 * left + 10
  rank (store_local who left id loaded) = 11 * left + 9
  rank (test who left id) = 11 * left + 8
  rank (lock_global who left id) = 11 * left + 7
  rank (load_value who left id) = 11 * left + 6
  rank (store_value who left id part loaded) = 11 * left + 5
  rank (unlock_global who left id part) = 11 * left + 4
  rank (reset who left id part) = 11 * left + 3
  rank (unlock_local who left id) = 11 * left + 2
  rank ended_thread = 0
  rank (create i) = (n - i) + 5
  rank join = 4
  rank get_lock = 3
  rank get_value = 2
  rank (get_unlock rc) = 1
  rank (printed rc) = 0

  drops : (m m' : Shared) (p p' : Pc) → step n max t found m p ≡ some (m', p') → rank p' < rank p
  unfolding step rank
  drops m m' (next_call who zero) p' e = ground arith
  drops m m' (next_call who (suc left)) p' e = ground arith
  drops m m' _ p' e = ground arith

  -- As many rounds as `main` and its threads have statements.
  abbrev pub enough : ℕ
  enough = n * (11 * max + 1) + (n + 5)

  start-rank : tally rank (suc n) (start n max t).pc ≡ enough
  unfolding rank
  start-rank = omega (
    arith,
    tally-suc rank n (start n max t).pc,
    ap rank (start-main n max t found),
    tally-each rank n (11 * max + 1) (start n max t).pc
        (λ i h. ap rank (start-workers n max t found i h)),
  )

  -- `main` and its threads after the turns of a schedule, and then enough rounds for all.
  abbrev pub ended : List ℕ → System Shared Pc
  ended is = run (step n max t found) (suc n) (is ++ rounds (suc n) enough) (start n max t)

  all-finish :
      ((who left : ℕ) → found who left < n)
      → 0 < t
      → (is : List ℕ) (i : ℕ) → i < suc n
      → is_finished ((ended is).pc i) ≡ true
  all-finish within pos is =
      rounds-finish_within (step n max t found) (suc n) (λ _. 0) rank
        (λ m m' p p' e. omega (arith, drops m m' p p' e)) is_finished (finished-stays n max t found)
        (start n max t)
        (λ js i h f. progress n max t found _ (run-IsSound n max t found within pos js) i h f)
        enough (omega (arith, start-rank)) is

  main-printed :
      (m : Shared) (p : Pc)
      → is_finished p ≡ true
      → Role n max t m n p
      → (rc : ℕ) × ((p ≡ printed rc) × ((rc ≤ n * max) × (n * max + n ≤ rc + n * t)))
  main-printed m (printed rc) e (a, (b, (c, d))) = (rc, (refl, (c, d)))
  main-printed m ended_thread e r = absurd (omega (arith, r))
  main-printed m _ e r = absurd cc

-- `n` threads that count `max` times each, with a threshold of at least 1, each time in the part whose
-- number `found` they read from the threadWrapper, which may be any of the `n` numbers, the same one for
-- several threads too: whatever they and `main` have done before, `enough` rounds of turns make `main`
-- print a number. It is at most `n * max`, and lacks at most `n * (threshold - 1)` of that. This supposes
-- that what they read is still one of the `n` numbers, and the counter still the counter, although the
-- threadWrapper lives for one round of the loop only.
pub sloppy_main-prints :
    (n max threshold : ℕ) (found : (who left : ℕ) → ℕ) (is : List ℕ)
    → ((who left : ℕ) → found who left < n)
    → 0 < threshold
    → (rc : ℕ) × (((ended n max threshold found is).pc n ≡ printed rc)
        × ((rc ≤ n * max) × (n * max + n ≤ rc + n * threshold)))
sloppy_main-prints n max threshold found is within pos =
    let s = ended n max threshold found is in
    main-printed n max threshold found s.shared (s.pc n)
      (all-finish n max threshold found within pos is n (omega arith))
      ((run-IsSound n max threshold found within pos
          (is ++ rounds (suc n) (enough n max threshold found))).roles
        n (omega arith))
