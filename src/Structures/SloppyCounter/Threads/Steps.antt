-- ===== src/Structures/SloppyCounter/Threads/Steps.antt =====
-- The locks and the numbers of sloppy-counter.c, one statement at a time.
use c_advanced_problems.Prelude.{ℕ, zero, suc, ◌+◌, ◌≤◌, ◌<◌, ◌≡◌, some, arith}
use c_advanced_problems.Prelude.Tally.{tally, tally-put}
use c_advanced_problems.Structures.SloppyCounter.Threads.{
  Shared, Pc, next_call, store_local, reset, step,
}
use c_advanced_problems.Structures.SloppyCounter.Threads.Invariant.{
  holds_global, holds_local, doubled, to_count, has_ended, Stands,
}

module _ (n max t : ℕ) (found : (who left : ℕ) → ℕ) where
  pub step-global :
      (m m' : Shared) (p p' : Pc)
      → step n max t found m p ≡ some (m', p')
      → m'.globallock + holds_global p' ≡ m.globallock + holds_global p
  unfolding step
  step-global m m' (next_call who zero) p' e = ground arith
  step-global m m' (next_call who (suc left)) p' e = ground arith
  step-global m m' _ p' e = ground arith

  pub step-local :
      (j : ℕ) (m m' : Shared) (p p' : Pc)
      → step n max t found m p ≡ some (m', p')
      → m'.locallock j + holds_local j p' ≡ m.locallock j + holds_local j p
  unfolding step
  step-local j m m' (next_call who zero) p' e = ground arith
  step-local j m m' (next_call who (suc left)) p' e = ground arith
  step-local j m m' _ p' e = ground arith

  pub step-ended :
      (m m' : Shared) (p p' : Pc)
      → step n max t found m p ≡ some (m', p')
      → m'.ended + has_ended p ≡ m.ended + has_ended p'
  unfolding step
  step-ended m m' (next_call who zero) p' e = ground arith
  step-ended m m' (next_call who (suc left)) p' e = ground arith
  step-ended m m' _ p' e = ground arith

  -- A part that is not locked stays below the threshold.
  pub step-small :
      (j : ℕ) (m m' : Shared) (p p' : Pc)
      → step n max t found m p ≡ some (m', p')
      → m.locallock j + holds_local j p ≤ 1
      → Stands n max t m p
      → (m.locallock j ≡ 1 → m.local j < t)
      → m'.locallock j ≡ 1
      → m'.local j < t
  unfolding step
  step-small j m m' (next_call who zero) p' e h st small k = ground arith
  step-small j m m' (next_call who (suc left)) p' e h st small k = ground arith
  step-small j m m' _ p' e h st small k = ground arith

  -- What is counted, less what is counted twice, and what is still to count.
  pub step-balance :
      (m m' : Shared) (p p' : Pc)
      → step n max t found m p ≡ some (m', p')
      → Stands n max t m p
      → m'.value + tally (λ v. v) n m'.local + to_count p' + doubled p
        ≡ m.value + tally (λ v. v) n m.local + to_count p + doubled p'
  unfolding step
  step-balance m m' (next_call who zero) p' e st = ground arith
  step-balance m m' (next_call who (suc left)) p' e st = ground arith
  step-balance m m' (store_local who left id loaded) p' e (lt, (same, st)) =
      ground (arith, tally-put (λ v. v) n m.local id (loaded + 1) lt)
  step-balance m m' (reset who left id part) p' e (lt, same) =
      ground (arith, tally-put (λ v. v) n m.local id 0 lt)
  step-balance m m' _ p' e st = ground arith
