-- ===== src/Sync/NoStarveMutex/Safety.antt =====
-- What the mutex promises of the counter that it protects.
use c_advanced_problems.Prelude.{
  ℕ, ◌+◌, ◌≤◌, ◌<◌, ◌≡◌, ◌≢◌, refl, Bool, true, false, some, List, arith,
}
use c_advanced_problems.Prelude.Tally.{put, put-all, tally, tally-put, tally-zero, tally-full}
use c_advanced_problems.Sync.Interleaving.{System, run, run-keeps}
use mathlib.Core.Path.{sym, ◌∙◌, ap}
use c_advanced_problems.Sync.NoStarveMutex.{
  Shared, Pc, acquire, load, store, release, release1, release2, finished, step, start,
}
use c_advanced_problems.Sync.NoStarveMutex.Invariant.{
  past, IsBalanced, step-IsBalanced, start-IsBalanced, not-both_past,
}

-- In the middle of `critical++`.
abbrev pub writes : Pc → Bool
writes load = true
writes (store loaded) = true
writes _ = false

-- 1 behind `critical++`.
abbrev pub counted : Pc → ℕ
counted release = 1
counted release1 = 1
counted release2 = 1
counted finished = 1
counted _ = 0

-- What `critical++` has loaded is still the value.
abbrev pub IsFresh : Shared → Pc → Type 0
IsFresh m (store loaded) = m.critical ≡ loaded
IsFresh m _ = Unit

pub record IsCurrent (n : ℕ) (s : System Shared Pc) : Type 0 where
  pub balanced : IsBalanced n s
  pub fresh : (i : ℕ) → i < n → IsFresh s.shared (s.pc i)
  pub counted : s.shared.critical ≡ tally counted n s.pc

step-IsFresh-self : (m m' : Shared) (p p' : Pc) → step m p ≡ some (m', p') → IsFresh m' p'
unfolding step
step-IsFresh-self m m' acquire p' e = ground arith
step-IsFresh-self m m' _ p' e = ground arith

step-IsFresh-other :
    (m m' : Shared) (p p' q : Pc)
    → step m p ≡ some (m', p')
    → past p + past q ≤ 1
    → IsFresh m q
    → IsFresh m' q
unfolding step
step-IsFresh-other m m' acquire p' q e h f = ground arith
step-IsFresh-other m m' _ p' q e h f = ground arith

step-counted :
    (m m' : Shared) (p p' : Pc)
    → step m p ≡ some (m', p')
    → IsFresh m p
    → m'.critical + counted p ≡ m.critical + counted p'
unfolding step
step-counted m m' acquire p' e f = ground arith
step-counted m m' _ p' e f = ground arith

step-IsCurrent :
    (n i : ℕ) (s : System Shared Pc) (m : Shared) (p : Pc)
    → i < n
    → step s.shared (s.pc i) ≡ some (m, p)
    → IsCurrent n s
    → IsCurrent n (record { shared = m; pc = put s.pc i p })
step-IsCurrent n i s m p h e c = record {
  balanced = step-IsBalanced n i s m p h e c.balanced;
  fresh =
      put-all (λ j q. j < n → IsFresh m q) s.pc i p (λ _. step-IsFresh-self s.shared m (s.pc i) p e)
        (λ j ne k.
          step-IsFresh-other s.shared m (s.pc i) p (s.pc j) e
            (not-both_past n s i j c.balanced h k ne) (c.fresh j k));
  counted = omega (
    arith,
    c.counted,
    step-counted s.shared m (s.pc i) p e (c.fresh i h),
    tally-put counted n s.pc i p h,
  );
}

pub run-IsCurrent : (n : ℕ) (is : List ℕ) → IsCurrent n (run step n is start)
run-IsCurrent n is = run-keeps step n (IsCurrent n) (step-IsCurrent n) is start (record {
  balanced = start-IsBalanced n;
  fresh = λ i h. tt;
  counted = sym (tally-zero counted n _ (λ i. refl));
})

writes-past : (p : Pc) → writes p ≡ true → 1 ≤ past p
writes-past load h = omega arith
writes-past _ h = ground arith

-- Whatever the schedule, two workers are never both in the middle of `critical++`.
worker_exclusion :
    (n : ℕ) (is : List ℕ) (i j : ℕ)
    → i < n
    → j < n
    → i ≢ j
    → writes ((run step n is start).pc i) ≡ true
    → writes ((run step n is start).pc j) ≡ false
worker_exclusion n is i j h k ne w =
    let s = run step n is start in
    let b = (run-IsCurrent n is).balanced in
    ground (arith, writes-past (s.pc i) w, writes-past (s.pc j), not-both_past n s i j b h k ne)

-- Whatever the schedule, once all `n` workers have finished `critical` is `n`: no `critical++` is
-- lost.
pub critical_counts :
    (n : ℕ) (is : List ℕ)
    → ((i : ℕ) → i < n → (run step n is start).pc i ≡ finished)
    → (run step n is start).shared.critical ≡ n
critical_counts n is done =
    (run-IsCurrent n is).counted ∙ tally-full counted n _ (λ i h. ap counted (done i h))
