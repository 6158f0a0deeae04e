-- ===== src/Sync/Barrier/Laws.antt =====
-- What the barrier promises.
use c_advanced_problems.Prelude.{
  ℕ, ◌+◌, ◌<◌, ◌≡◌, refl, Bool, true, false, none, some, List, arith, dec_lt, ℕ_discrete,
}
use c_advanced_problems.Prelude.Tally.{
  tally, le-tally, tally-pos, tally-lt, tally-dominated, tally-full,
}
use c_advanced_problems.Sync.Interleaving.{System, run}
use c_advanced_problems.Sync.Barrier.{Shared, Pc, before, finished, step, start}
use c_advanced_problems.Sync.Barrier.Invariant.{
  in_mutex, arrived, arrived-le, untested, opening, passed, IsBalanced, run-IsBalanced,
}

-- Whatever the schedule, once one child has passed the barrier every child has arrived at it: each
-- has printed its first line and counted itself.
pub none_passes_early :
    (n : ℕ) (is : List ℕ) (i j : ℕ)
    → i < n
    → j < n
    → passed ((run step n is (start n)).pc i) ≡ 1
    → arrived ((run step n is (start n)).pc j) ≡ 1
none_passes_early n is i j h k p =
    let s = run step n is (start n) in
    let b = run-IsBalanced n is (omega arith) in
    ground (
      arith,
      b,
      le-tally passed n s.pc i h,
      arrived-le (s.pc j),
      tally-dominated arrived (λ _. 1) arrived-le n s.pc j k,
      tally-full (λ _. 1) n s.pc (λ j k. refl),
    )

abbrev pub can_step : Shared → Pc → Bool
can_step m p = elim (step m p) [ none ↦ false | some r ↦ true ]

abbrev pub is_finished : Pc → Bool
is_finished finished = true
is_finished _ = false

abbrev pub Progress : ℕ → System Shared Pc → Type 0
Progress n s = (j : ℕ) × (j < n) × (can_step s.shared (s.pc j) ≡ true)

holder-steps : (m : Shared) (p : Pc) → 0 < in_mutex p → can_step m p ≡ true
unfolding step
holder-steps m before h = ground arith
holder-steps m _ h = ground arith

opening-steps : (m : Shared) (p : Pc) → 0 < opening p + untested p → can_step m p ≡ true
unfolding step
opening-steps m before h = ground arith
opening-steps m _ h = ground arith

absent-steps : (m : Shared) (p : Pc) → arrived p ≡ 0 → 0 < m.mutex → can_step m p ≡ true
unfolding step
absent-steps m before h k = ground arith
absent-steps m _ h k = ground arith

open-steps :
    (m : Shared) (p : Pc)
    → is_finished p ≡ false
    → 0 < m.mutex
    → 0 < m.barrier
    → can_step m p ≡ true
unfolding step
open-steps m before f k d = ground arith
open-steps m _ f k d = ground arith

module _ (n : ℕ) (s : System Shared Pc) (b : IsBalanced n s) (free : 0 < s.shared.mutex) where
  -- All have arrived, and the barrier is shut: the last one is about to open it.
  shut-Progress : s.shared.count ≡ n → s.shared.barrier ≡ 0 → Progress n s
  shut-Progress c e = elim (dec_lt 0 (tally opening n s.pc)) [
    | yes o ↦
        let (j, k, w) = tally-pos opening n s.pc o in
        (j, k, opening-steps s.shared (s.pc j) (omega arith))
    | no nobody ↦
        let (j, k, w) = tally-pos untested n s.pc (ground (arith, b)) in
        (j, k, opening-steps s.shared (s.pc j) (omega arith))
  ]

  free-Progress : (i : ℕ) → i < n → is_finished (s.pc i) ≡ false → Progress n s
  free-Progress i h f = elim (dec_lt 0 s.shared.barrier) [
    | yes o ↦ (i, h, open-steps s.shared (s.pc i) f free o)
    | no shut ↦ elim (ℕ_discrete s.shared.count n) [
      | yes all ↦ shut-Progress all (omega arith)
      | no some_missing ↦
          let (j, k, w) = tally-lt arrived n s.pc (
            omega (
              arith,
              b.count,
              tally-dominated arrived (λ _. 1) arrived-le n s.pc i h,
              tally-full (λ _. 1) n s.pc (λ j k. refl),
              arrived-le (s.pc i),
            )) in
          (j, k, absent-steps s.shared (s.pc j) w free)
    ]
  ]

-- Whatever the schedule, as long as a child has not finished, some child can go on: no child is left
-- behind the barrier.
pub children-Progress :
    (n : ℕ) (is : List ℕ) (i : ℕ)
    → i < n
    → is_finished ((run step n is (start n)).pc i) ≡ false
    → Progress n (run step n is (start n))
children-Progress n is i h f =
    let s = run step n is (start n) in
    let b = run-IsBalanced n is (omega arith) in
    elim (dec_lt 0 s.shared.mutex) [
      | yes free ↦ free-Progress n s b free i h f
      | no held ↦
          let (j, k, w) = tally-pos in_mutex n s.pc (omega (arith, b.mutex)) in
          (j, k, holder-steps s.shared (s.pc j) w)
    ]
