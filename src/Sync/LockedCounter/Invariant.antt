-- ===== src/Sync/LockedCounter/Invariant.antt =====
-- The mutex against where the threads stand, and the value against who has counted.
use c_advanced_problems.Prelude.{ℕ, ◌+◌, ◌≤◌, ◌<◌, ◌≡◌, refl, sym, some, List, arith}
use c_advanced_problems.Prelude.Tally.{put, put-all, tally, tally-put, tally-zero, two-le-tally}
use c_advanced_problems.Sync.Interleaving.{System, run, run-keeps}
use c_advanced_problems.Sync.LockedCounter.{
  Shared, Pc, acquire, load, store, release, finished, step, start,
}

-- 1 where the thread holds the mutex.
abbrev pub holds : Pc → ℕ
holds load = 1
holds (store loaded) = 1
holds release = 1
holds _ = 0

-- 1 once the thread has counted.
abbrev pub counted : Pc → ℕ
counted release = 1
counted finished = 1
counted _ = 0

-- What has been loaded is still the value.
abbrev pub IsFresh : Shared → Pc → Type 0
IsFresh m (store loaded) = m.value ≡ loaded
IsFresh m _ = Unit

pub record IsCurrent (n : ℕ) (s : System Shared Pc) : Type 0 where
  pub held : s.shared.lock + tally holds n s.pc ≡ 1
  pub fresh : (i : ℕ) → i < n → IsFresh s.shared (s.pc i)
  pub counted : s.shared.value ≡ tally counted n s.pc

step-held :
    (m m' : Shared) (p p' : Pc) → step m p ≡ some (m', p') → m'.lock + holds p' ≡ m.lock + holds p
unfolding step
step-held m m' acquire p' e = ground arith
step-held m m' _ p' e = ground arith

step-IsFresh-self : (m m' : Shared) (p p' : Pc) → step m p ≡ some (m', p') → IsFresh m' p'
unfolding step
step-IsFresh-self m m' acquire p' e = ground arith
step-IsFresh-self m m' _ p' e = ground arith

step-IsFresh-other :
    (m m' : Shared) (p p' q : Pc)
    → step m p ≡ some (m', p')
    → holds p + holds q ≤ 1
    → IsFresh m q
    → IsFresh m' q
unfolding step
step-IsFresh-other m m' acquire p' q e h f = ground arith
step-IsFresh-other m m' _ p' q e h f = ground arith

step-counted :
    (m m' : Shared) (p p' : Pc)
    → step m p ≡ some (m', p')
    → IsFresh m p
    → m'.value + counted p ≡ m.value + counted p'
unfolding step
step-counted m m' acquire p' e f = ground arith
step-counted m m' _ p' e f = ground arith

step-IsCurrent :
    (n i : ℕ) (s : System Shared Pc) (m : Shared) (p : Pc)
    → i < n
    → step s.shared (s.pc i) ≡ some (m, p)
    → IsCurrent n s
    → IsCurrent n (record { shared = m; pc = put s.pc i p })
step-IsCurrent n i s m p h e c = record {
  held = omega (arith, c.held, step-held s.shared m (s.pc i) p e, tally-put holds n s.pc i p h);
  fresh =
      put-all (λ j q. j < n → IsFresh m q) s.pc i p (λ _. step-IsFresh-self s.shared m (s.pc i) p e)
        (λ j ne k.
          step-IsFresh-other s.shared m (s.pc i) p (s.pc j) e
            (omega (arith, c.held, two-le-tally holds n s.pc i j h k ne)) (c.fresh j k));
  counted = omega (
    arith,
    c.counted,
    step-counted s.shared m (s.pc i) p e (c.fresh i h),
    tally-put counted n s.pc i p h,
  );
}

pub run-IsCurrent : (n : ℕ) (is : List ℕ) → IsCurrent n (run step n is start)
run-IsCurrent n is = run-keeps step n (IsCurrent n) (step-IsCurrent n) is start (record {
  held = rw (tally-zero holds n (λ _. acquire) (λ i. refl)) refl;
  fresh = λ i h. tt;
  counted = sym (tally-zero counted n _ (λ i. refl));
})
