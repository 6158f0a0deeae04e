-- ===== src/Structures/SloppyCounter/Threads/Totals.antt =====
-- What every order of the statements of sloppy-counter.c keeps.
use c_advanced_problems.Prelude.{
  ℕ, suc, ◌+◌, ◌*◌, ◌≤◌, ◌<◌, ◌≡◌, refl, sym, ◌∙◌, ap, some, arith, ◌==◌, List, Bool-cases, inl,
  inr,
}
use c_advanced_problems.Prelude.Tally.{
  put, put-all, tally-put, tally-zero, tally-none, tally-suc, tally-full, tally-each, tally-below,
  tally-dominated, le-tally, two-le-tally,
}
use c_advanced_problems.Structures.SloppyCounter.Threads.{
  Shared, Pc, next_call, ended_thread, create, join, get_lock, get_value, get_unlock, printed, step,
  start,
}
use c_advanced_problems.Structures.SloppyCounter.Threads.Invariant.{
  holds_global, holds_local, doubled, to_count, has_ended, Stands, Role, IsSound,
}
use c_advanced_problems.Structures.SloppyCounter.Threads.Steps.{
  step-global, step-local, step-ended, step-small, step-balance,
}
use c_advanced_problems.Structures.SloppyCounter.Threads.Places.{
  step-Stands-self, step-Stands-other, step-Role-self, step-Role-other,
}
use c_advanced_problems.Sync.Interleaving.{System, run, run-keeps}

ended-quiet :
    (p : Pc)
    → 1 ≤ has_ended p
    → (to_count p ≡ 0) × ((doubled p ≡ 0) × ((j : ℕ) → holds_local j p ≡ 0))
ended-quiet ended_thread h = (refl, (refl, λ j. refl))
ended-quiet _ h = absurd (omega (arith, h))

has_ended-le : (p : Pc) → has_ended p ≤ 1
has_ended-le ended_thread = omega arith
has_ended-le _ = omega arith

module _ (n max t : ℕ) (found : (who left : ℕ) → ℕ) where
  -- `main` has not ended.
  pub main-quiet :
      (m : Shared) (p : Pc)
      → Role n max t m n p
      → (has_ended p ≡ 0) × ((to_count p ≡ 0) × ((doubled p ≡ 0) × ((j : ℕ) → holds_local j p ≡ 0)))
  main-quiet m (create i) r = (refl, (refl, (refl, λ j. refl)))
  main-quiet m join r = (refl, (refl, (refl, λ j. refl)))
  main-quiet m get_lock r = (refl, (refl, (refl, λ j. refl)))
  main-quiet m get_value r = (refl, (refl, (refl, λ j. refl)))
  main-quiet m (get_unlock rc) r = (refl, (refl, (refl, λ j. refl)))
  main-quiet m (printed rc) r = (refl, (refl, (refl, λ j. refl)))
  main-quiet m _ r = absurd (omega (arith, r))

  -- Where all threads have ended, all but what is left in the parts is in the whole.
  all-ended :
      (s : System Shared Pc)
      → IsSound n max t s
      → n ≤ s.shared.ended
      → (s.shared.value ≤ n * max) × (n * max + n ≤ s.shared.value + n * t)
  all-ended s c h =
      let (a, (b, (d, f))) = main-quiet s.shared (s.pc n) (c.roles n (omega arith)) in
      let all = c.endings ∙ tally-suc has_ended n s.pc in
      let quiet : (i : ℕ)
          → i < n
          → (to_count (s.pc i) ≡ 0)
            × ((doubled (s.pc i) ≡ 0) × ((j : ℕ) → holds_local j (s.pc i) ≡ 0)) =
        λ i lt. ended-quiet (s.pc i) (
          omega (
            arith,
            tally-dominated has_ended (λ _. 1) has_ended-le n s.pc i lt,
            tally-full (λ _. 1) n s.pc (λ k l. refl),
          )) in
      let counted = tally-suc to_count n s.pc in
      let none_left = tally-none to_count n s.pc (λ i lt. (quiet i lt).0) in
      let twice = tally-suc doubled n s.pc in
      let none_twice = tally-none doubled n s.pc (λ i lt. (quiet i lt).1.0) in
      let parts =
        tally-below (λ v. v) n t s.shared.local
          (λ j lt. c.small j lt (
            omega (
              arith,
              c.local_held j lt,
              f j,
              tally-suc (holds_local j) n s.pc,
              tally-none (holds_local j) n s.pc (λ i k. (quiet i k).1.1 j),
            ))) in
      (omega (arith, c.balance), omega (arith, c.balance))

  holder-in_range : (m : Shared) (q : Pc) (j : ℕ) → Stands n max t m q → holds_local j q ≡ 1 → j < n
  holder-in_range m (next_call who left) j st h = absurd (omega (arith, h))
  holder-in_range m _ j st h = ground arith

  keeps-IsSound :
      (i : ℕ) (s : System Shared Pc) (m : Shared) (p : Pc)
      → ((who left : ℕ) → found who left < n)
      → 0 < t
      → i < suc n
      → step n max t found s.shared (s.pc i) ≡ some (m, p)
      → IsSound n max t s
      → IsSound n max t (record { shared = m; pc = put s.pc i p })
  keeps-IsSound i s m p within pos h e c =
      let st = c.stands i h in
      record {
        global_held = omega (
          arith,
          c.global_held,
          step-global n max t found s.shared m (s.pc i) p e,
          tally-put holds_global (suc n) s.pc i p h,
        );
        local_held = λ j lt. omega (
          arith,
          c.local_held j lt,
          step-local n max t found j s.shared m (s.pc i) p e,
          tally-put (holds_local j) (suc n) s.pc i p h,
        );
        small = λ j lt.
            step-small n max t found j s.shared m (s.pc i) p e
              (omega (arith, c.local_held j lt, le-tally (holds_local j) (suc n) s.pc i h)) st
              (c.small j lt);
        stands =
            put-all (λ j q. j < suc n → Stands n max t m q) s.pc i p
              (λ _.
                step-Stands-self n max t found s.shared m (s.pc i) p e
                  (λ j lt. omega (arith, c.local_held j lt)) c.small within pos st)
              (λ j ne k.
                step-Stands-other n max t found s.shared m (s.pc i) p (s.pc j) e
                  (λ l w.
                    let lt = holder-in_range s.shared (s.pc j) l (c.stands j k) w in
                    omega (
                      arith,
                      w,
                      c.local_held l lt,
                      two-le-tally (holds_local l) (suc n) s.pc i j h k ne,
                    ))
                  (λ w.
                    omega
                      (arith, w, c.global_held, two-le-tally holds_global (suc n) s.pc i j h k ne))
                  (c.stands j k));
        roles =
            put-all (λ j q. j < suc n → Role n max t m j q) s.pc i p
              (λ _.
                step-Role-self n max t found i s.shared m (s.pc i) p e (all-ended s c)
                  (c.roles i h))
              (λ j ne k.
                step-Role-other n max t found i j s.shared m (s.pc i) p (s.pc j) e h ne
                  (c.roles i h) (c.roles j k));
        balance = omega (
          arith,
          c.balance,
          step-balance n max t found s.shared m (s.pc i) p e st,
          tally-put to_count (suc n) s.pc i p h,
          tally-put doubled (suc n) s.pc i p h,
        );
        endings = omega (
          arith,
          c.endings,
          step-ended n max t found s.shared m (s.pc i) p e,
          tally-put has_ended (suc n) s.pc i p h,
        );
      }

  start-zero :
      (w : Pc → ℕ)
      → w (create 0) ≡ 0
      → ((i : ℕ) → w (next_call i max) ≡ 0)
      → (i : ℕ) → w ((start n max t).pc i) ≡ 0
  start-zero w a b i = elim (Bool-cases (i == n)) [ inl e ↦ rw e a | inr e ↦ rw e (b i) ]

  pub start-workers : (i : ℕ) → i < n → (start n max t).pc i ≡ next_call i max
  start-workers i h = ground arith

  pub start-main : (start n max t).pc n ≡ create 0
  start-main = ground arith

  start-IsSound : 0 < t → IsSound n max t (start n max t)
  start-IsSound pos = record {
    global_held = omega (
      arith,
      tally-zero holds_global (suc n) (start n max t).pc (start-zero holds_global refl (λ i. refl)),
    );
    local_held = λ j h. omega (
      arith,
      tally-zero (holds_local j) (suc n) (start n max t).pc
          (start-zero (holds_local j) refl (λ i. refl)),
    );
    small = λ j h e. pos;
    stands = λ i h. elim (Bool-cases (i == n)) [ inl e ↦ rw e tt | inr e ↦ rw e tt ];
    roles = λ i h. elim (Bool-cases (i == n)) [
      | inl e ↦ rw e (ground (arith, e), (refl, omega arith))
      | inr e ↦ rw e (ground (arith, e), refl)
    ];
    balance = omega (
      arith,
      tally-zero (λ v. v) n (λ j. 0) (λ j. refl),
      tally-suc to_count n (start n max t).pc,
      ap to_count start-main,
      tally-each to_count n max (start n max t).pc (λ i h. ap to_count (start-workers i h)),
      tally-zero doubled (suc n) (start n max t).pc (start-zero doubled refl (λ i. refl)),
    );
    endings =
        sym
          (tally-zero has_ended (suc n) (start n max t).pc (start-zero has_ended refl (λ i. refl)));
  }

  pub run-IsSound :
      ((who left : ℕ) → found who left < n)
      → 0 < t
      → (is : List ℕ) → IsSound n max t (run (step n max t found) (suc n) is (start n max t))
  run-IsSound within pos is =
      run-keeps (step n max t found) (suc n) (IsSound n max t)
        (λ i s m p h e c. keeps-IsSound i s m p within pos h e c) is (start n max t)
        (start-IsSound pos)
