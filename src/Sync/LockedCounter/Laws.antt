-- ===== src/Sync/LockedCounter/Laws.antt =====
-- What the threads have counted in the end.
use c_advanced_problems.Prelude.{
  ℕ, ◌*◌, ◌<◌, ◌≤◌, ◌≡◌, refl, ◌∙◌, Bool, true, false, none, some, List, ◌++◌, arith, dec_lt,
}
use c_advanced_problems.Prelude.Tally.{tally-pos, tally-full}
use c_advanced_problems.Sync.Interleaving.{run}
use c_advanced_problems.Sync.Termination.{rounds, rounds-finish}
use c_advanced_problems.Sync.LockedCounter.{
  Shared, Pc, acquire, load, store, release, finished, step, start,
}
use c_advanced_problems.Sync.LockedCounter.Invariant.{holds, counted, run-IsCurrent}

abbrev can_step : Shared → Pc → Bool
can_step m p = elim (step m p) [ none ↦ false | some r ↦ true ]

abbrev is_finished : Pc → Bool
is_finished finished = true
is_finished _ = false

free-steps : (m : Shared) (p : Pc) → is_finished p ≡ false → 0 < m.lock → can_step m p ≡ true
unfolding step
free-steps m acquire f h = ground arith
free-steps m _ f h = ground arith

holder-steps : (m : Shared) (p : Pc) → 0 < holds p → can_step m p ≡ true
unfolding step
holder-steps m acquire h = ground arith
holder-steps m _ h = ground arith

-- As long as a thread has not finished, one can go on.
progress :
    (n : ℕ) (is : List ℕ) (i : ℕ)
    → i < n
    → is_finished ((run step n is start).pc i) ≡ false
    → (j : ℕ) × (j < n)
      × (can_step (run step n is start).shared ((run step n is start).pc j) ≡ true)
progress n is i h f =
    let s = run step n is start in
    elim (dec_lt 0 s.shared.lock) [
      | yes free ↦ (i, h, free-steps s.shared (s.pc i) f free)
      | no held ↦
          let (j, k, w) = tally-pos holds n s.pc (omega (arith, held, (run-IsCurrent n is).held)) in
          (j, k, holder-steps s.shared (s.pc j) w)
    ]

-- How many steps a thread has left.
rank : Pc → ℕ
rank acquire = 4
rank load = 3
rank (store loaded) = 2
rank release = 1
rank finished = 0

drops : (m m' : Shared) (p p' : Pc) → step m p ≡ some (m', p') → rank p' < rank p
unfolding step rank
drops m m' acquire p' e = ground (arith, e)
drops m m' _ p' e = ground (arith, e)

finished-stays : (m : Shared) (p : Pc) → is_finished p ≡ true → step m p ≡ none
unfolding step
finished-stays m finished e = refl
finished-stays m _ e = ground (arith, e)

rank-le : (p : Pc) → rank p ≤ 4
unfolding rank
rank-le acquire = omega arith
rank-le _ = omega arith

finished-counted : (p : Pc) → is_finished p ≡ true → counted p ≡ 1
finished-counted finished e = refl
finished-counted _ e = ground (arith, e)

-- Whatever `n` threads have done before, four rounds of turns per thread finish all of them, and the
-- value is then `n`: no increment is lost.
pub increments_counted :
    (n : ℕ) (is : List ℕ) → (run step n (is ++ rounds n (n * 4)) start).shared.value ≡ n
increments_counted n is =
    (run-IsCurrent n (is ++ rounds n (n * 4))).counted
    ∙ tally-full counted n _ (λ i h. finished-counted _ (
        rounds-finish step n rank drops is_finished finished-stays start (progress n) 4 rank-le is i
          h))
