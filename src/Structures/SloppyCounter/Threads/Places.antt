-- ===== src/Structures/SloppyCounter/Threads/Places.antt =====
-- Where the threads of sloppy-counter.c stand, one statement at a time.
use c_advanced_problems.Prelude.{ℕ, zero, suc, ◌+◌, ◌*◌, ◌≤◌, ◌<◌, ◌≡◌, ◌≢◌, some, arith, dec_lt}
use c_advanced_problems.Structures.SloppyCounter.Threads.{
  Shared, Pc, next_call, lock_local, load_local, store_local, test, store_value, unlock_global,
  reset, unlock_local, step,
}
use c_advanced_problems.Structures.SloppyCounter.Threads.Invariant.{
  holds_global, holds_local, Stands, Role,
}

module _ (n max t : ℕ) (found : (who left : ℕ) → ℕ) where
  -- What a thread changes, it holds the lock of.
  pub step-spares :
      (m m' : Shared) (p p' : Pc)
      → step n max t found m p ≡ some (m', p')
      → ((j : ℕ) → holds_local j p ≡ 0 → m'.local j ≡ m.local j)
        × (holds_global p ≡ 0 → m'.value ≡ m.value)
  unfolding step
  step-spares m m' (next_call who zero) p' e = (λ j h. ground arith, λ h. ground arith)
  step-spares m m' (next_call who (suc left)) p' e = (λ j h. ground arith, λ h. ground arith)
  step-spares m m' _ p' e = (λ j h. ground arith, λ h. ground arith)

  pub step-Stands-self :
      (m m' : Shared) (p p' : Pc)
      → step n max t found m p ≡ some (m', p')
      → ((j : ℕ) → j < n → m.locallock j ≤ 1)
      → ((j : ℕ) → j < n → m.locallock j ≡ 1 → m.local j < t)
      → ((who left : ℕ) → found who left < n)
      → 0 < t
      → Stands n max t m p
      → Stands n max t m' p'
  unfolding step
  step-Stands-self m m' (next_call who zero) p' e one small h pos st = ground arith
  step-Stands-self m m' (next_call who (suc left)) p' e one small h pos st =
      ground (arith, h who left)
  step-Stands-self m m' (lock_local who left id) p' e one small h pos st =
      ground (arith, one id st, small id st)
  step-Stands-self m m' _ p' e one small h pos st = ground arith

  Stands-kept :
      (m m' : Shared) (q : Pc)
      → ((j : ℕ) → holds_local j q ≡ 1 → m'.local j ≡ m.local j)
      → (holds_global q ≡ 1 → m'.value ≡ m.value)
      → Stands n max t m q
      → Stands n max t m' q
  Stands-kept m m' (load_local who left id) f g (a, b) = ground (arith, f id)
  Stands-kept m m' (store_local who left id loaded) f g (a, (b, c)) = ground (arith, f id)
  Stands-kept m m' (test who left id) f g (a, b) = ground (arith, f id)
  Stands-kept m m' (store_value who left id part loaded) f g (a, (b, c)) = ground (arith, f id, g)
  Stands-kept m m' (unlock_global who left id part) f g (a, b) = ground (arith, f id)
  Stands-kept m m' (reset who left id part) f g (a, b) = ground (arith, f id)
  Stands-kept m m' (unlock_local who left id) f g (a, b) = ground (arith, f id)
  Stands-kept m m' _ f g st = st

  pub step-Stands-other :
      (m m' : Shared) (p p' q : Pc)
      → step n max t found m p ≡ some (m', p')
      → ((j : ℕ) → holds_local j q ≡ 1 → holds_local j p ≡ 0)
      → (holds_global q ≡ 1 → holds_global p ≡ 0)
      → Stands n max t m q
      → Stands n max t m' q
  step-Stands-other m m' p p' q e f g st =
      let (a, b) = step-spares m m' p p' e in
      Stands-kept m m' q (λ j h. a j (f j h)) (λ h. b (g h)) st

  -- Where a thread stands is where it may stand.
  pub step-Role-self :
      (i : ℕ) (m m' : Shared) (p p' : Pc)
      → step n max t found m p ≡ some (m', p')
      → (n ≤ m.ended → (m.value ≤ n * max) × (n * max + n ≤ m.value + n * t))
      → Role n max t m i p
      → Role n max t m' i p'
  unfolding step
  step-Role-self i m m' (next_call who zero) p' e v r = ground arith
  step-Role-self i m m' (next_call who (suc left)) p' e v r = ground arith
  step-Role-self i m m' _ p' e v r = ground arith

  created-step :
      (i : ℕ) (m m' : Shared) (p p' : Pc)
      → step n max t found m p ≡ some (m', p')
      → Role n max t m i p
      → i < n
      → m'.created ≡ m.created
  unfolding step
  created-step i m m' (next_call who zero) p' e r h = ground arith
  created-step i m m' (next_call who (suc left)) p' e r h = ground arith
  created-step i m m' _ p' e r h = ground arith

  ended-step :
      (m m' : Shared) (p p' : Pc) → step n max t found m p ≡ some (m', p') → m.ended ≤ m'.ended
  unfolding step
  ended-step m m' (next_call who zero) p' e = ground arith
  ended-step m m' (next_call who (suc left)) p' e = ground arith
  ended-step m m' _ p' e = ground arith

  pub step-Role-other :
      (i j : ℕ) (m m' : Shared) (p p' q : Pc)
      → step n max t found m p ≡ some (m', p')
      → i < suc n
      → i ≢ j
      → Role n max t m i p
      → Role n max t m j q
      → Role n max t m' j q
  step-Role-other i j m m' p p' q e h ne r r' = elim (dec_lt i n) [
    | yes worker ↦ ground (arith, created-step i m m' p p' e r worker, ended-step m m' p p' e)
    | no main ↦ ground arith
  ]
