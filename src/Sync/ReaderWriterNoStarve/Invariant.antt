-- ===== src/Sync/ReaderWriterNoStarve/Invariant.antt =====
-- Who holds which semaphore of the lock with the turnstile.
use c_advanced_problems.Prelude.{
  ℕ, ◌+◌, ◌≤◌, ◌<◌, ◌≡◌, refl, ◌⊎◌, inl, inr, Bool, some, List, arith, ◌≢◌, if◌then◌else◌, ◌==◌,
  Bool-cases,
}
use c_advanced_problems.Prelude.Tally.{
  put, put-all, two-le-tally, tally, tally-put, tally-dominated, tally-add, tally-zero, le-tally,
}
use c_advanced_problems.Sync.Interleaving.{System, run, run-keeps}
use c_advanced_problems.Sync.ReaderWriterNoStarve.{
  Shared, Pc, pass, repost, acquire, count_in, wait_writelock, post_in, reading, release, count_out,
  post_writelock, post_out, enter_write, acquire_write, load, store, print_value, open_turnstile,
  release_write, step, start,
}

-- 1 where a thread is between `sem_wait(&rw->mutex)` and `sem_post(&rw->mutex)`.
abbrev pub in_mutex : Pc → ℕ
in_mutex count_in = 1
in_mutex wait_writelock = 1
in_mutex post_in = 1
in_mutex count_out = 1
in_mutex post_writelock = 1
in_mutex post_out = 1
in_mutex _ = 0

-- 1 for the first reader, waiting for the writers.
abbrev pub waiting : Pc → ℕ
waiting wait_writelock = 1
waiting _ = 0

-- 1 for a reader that is counted and past that wait.
abbrev pub counted : Pc → ℕ
counted post_in = 1
counted reading = 1
counted release = 1
counted count_out = 1
counted _ = 0

-- 1 for the last reader, about to let the writers in.
abbrev pub leaving : Pc → ℕ
leaving post_writelock = 1
leaving _ = 0

-- 1 for a writer between its acquire and its release.
abbrev pub writing : Pc → ℕ
writing load = 1
writing (store loaded) = 1
writing print_value = 1
writing open_turnstile = 1
writing release_write = 1
writing _ = 0

-- 1 for a thread between `sem_wait(&rw->turnstile)` and `sem_post(&rw->turnstile)`.
abbrev pub in_turnstile : Pc → ℕ
in_turnstile repost = 1
in_turnstile acquire_write = 1
in_turnstile load = 1
in_turnstile (store loaded) = 1
in_turnstile print_value = 1
in_turnstile open_turnstile = 1
in_turnstile _ = 0

-- The shared memory against how many threads stand at each of these places.
pub record Balanced (m : Shared) (mutexed waits counts leaves writes turns : ℕ) : Type 0 where
  pub turnstile : m.turnstile + turns ≡ 1
  pub mutex : m.mutex + mutexed ≡ 1
  pub readers : m.readers ≡ waits + counts
  pub first : (waits ≡ 0) ⊎ (counts ≡ 0)
  pub writelock : m.writelock + writes + (if m.readers == 0 then 0 else 1) + leaves ≡ 1 + waits
  pub within : waits + leaves ≤ mutexed

-- What the place `p` of a thread has to do with the counts.
pub record Stands (p : Pc) (mutexed waits counts leaves writes : ℕ) : Type 0 where
  pub mutexed_at : in_mutex p ≤ mutexed
  pub within_at : waits + leaves + in_mutex p ≤ mutexed + waiting p + leaving p
  pub counts_at : counted p ≤ counts
  pub writes_at : writing p ≤ writes

step-Balanced :
    (m m' : Shared) (p p' : Pc) (h w c l x o h' w' c' l' x' o' : ℕ)
    → step m p ≡ some (m', p')
    → Balanced m h w c l x o
    → Stands p h w c l x
    → h' + in_mutex p ≡ h + in_mutex p'
    → w' + waiting p ≡ w + waiting p'
    → c' + counted p ≡ c + counted p'
    → l' + leaving p ≡ l + leaving p'
    → x' + writing p ≡ x + writing p'
    → o' + in_turnstile p ≡ o + in_turnstile p'
    → Balanced m' h' w' c' l' x' o'
unfolding step
step-Balanced m m' acquire p' h w c l x o h' w' c' l' x' o' e b s eh ew ec el ex eo = ground arith
step-Balanced m m' _ p' h w c l x o h' w' c' l' x' o' e b s eh ew ec el ex eo = ground arith

-- The counts of the `n` threads of a system.
abbrev pub IsBalanced : ℕ → System Shared Pc → Type 0
IsBalanced n s =
    Balanced s.shared (tally in_mutex n s.pc) (tally waiting n s.pc) (tally counted n s.pc)
      (tally leaving n s.pc) (tally writing n s.pc) (tally in_turnstile n s.pc)

-- 1 at the places that `waiting` and `leaving` name.
abbrev edge : Pc → ℕ
edge p = waiting p + leaving p

edge-le : (p : Pc) → edge p ≤ in_mutex p
edge-le wait_writelock = omega arith
edge-le _ = omega arith

stands :
    (n : ℕ) (f : ℕ → Pc) (i : ℕ)
    → i < n
    → Stands
        (f i)
        (tally in_mutex n f)
        (tally waiting n f)
        (tally counted n f)
        (tally leaving n f)
        (tally writing n f)
stands n f i h = record {
  mutexed_at = le-tally in_mutex n f i h;
  within_at =
      omega (arith, tally-dominated edge in_mutex edge-le n f i h, tally-add waiting leaving n f);
  counts_at = le-tally counted n f i h;
  writes_at = le-tally writing n f i h;
}

step-IsBalanced :
    (n i : ℕ) (s : System Shared Pc) (m : Shared) (p : Pc)
    → i < n
    → step s.shared (s.pc i) ≡ some (m, p)
    → IsBalanced n s
    → IsBalanced n (record { shared = m; pc = put s.pc i p })
step-IsBalanced n i s m p h e b =
    step-Balanced s.shared m (s.pc i) p _ _ _ _ _ _ _ _ _ _ _ _ e b (stands n s.pc i h)
      (tally-put in_mutex n s.pc i p h) (tally-put waiting n s.pc i p h)
      (tally-put counted n s.pc i p h) (tally-put leaving n s.pc i p h)
      (tally-put writing n s.pc i p h) (tally-put in_turnstile n s.pc i p h)

start-zero :
    (w : Pc → ℕ) (n : ℕ) (is_reader : ℕ → Bool)
    → w pass ≡ 0
    → w enter_write ≡ 0
    → tally w n (start is_reader).pc ≡ 0
start-zero w n is_reader r e = tally-zero w n _ (λ i. ground arith)

start-IsBalanced : (n : ℕ) (is_reader : ℕ → Bool) → IsBalanced n (start is_reader)
start-IsBalanced n is_reader =
    rw
      (
        start-zero in_mutex n is_reader refl refl,
        start-zero waiting n is_reader refl refl,
        start-zero counted n is_reader refl refl,
        start-zero leaving n is_reader refl refl,
        start-zero writing n is_reader refl refl,
        start-zero in_turnstile n is_reader refl refl,
      )
      (ground arith)

-- Whatever the schedule, the shared memory agrees with where the threads stand.
pub run-IsBalanced :
    (n : ℕ) (is_reader : ℕ → Bool) (is : List ℕ) → IsBalanced n (run step n is (start is_reader))
run-IsBalanced n is_reader is =
    run-keeps step n (IsBalanced n) (step-IsBalanced n) is (start is_reader)
      (start-IsBalanced n is_reader)

-- What `value++` has loaded is still the value.
abbrev pub IsFresh : Shared → Pc → Type 0
IsFresh m (store loaded) = m.value ≡ loaded
IsFresh m _ = Unit

pub record IsCurrent (n : ℕ) (s : System Shared Pc) : Type 0 where
  pub balanced : IsBalanced n s
  pub fresh : (i : ℕ) → i < n → IsFresh s.shared (s.pc i)

-- Of two threads one at most is in `writing`.
pub not-both_writing :
    (n : ℕ) (s : System Shared Pc) (i j : ℕ)
    → IsBalanced n s
    → i < n
    → j < n
    → i ≢ j
    → writing (s.pc i) + writing (s.pc j) ≤ 1
not-both_writing n s i j b h k ne = ground (arith, two-le-tally writing n s.pc i j h k ne)

step-IsFresh-self : (m m' : Shared) (p p' : Pc) → step m p ≡ some (m', p') → IsFresh m' p'
unfolding step
step-IsFresh-self m m' acquire p' e = ground arith
step-IsFresh-self m m' _ p' e = ground arith

step-IsFresh-other :
    (m m' : Shared) (p p' q : Pc)
    → step m p ≡ some (m', p')
    → writing p + writing q ≤ 1
    → IsFresh m q
    → IsFresh m' q
unfolding step
step-IsFresh-other m m' acquire p' q e h f = ground arith
step-IsFresh-other m m' _ p' q e h f = ground arith

step-IsCurrent :
    (n i : ℕ) (s : System Shared Pc) (m : Shared) (p : Pc)
    → i < n
    → step s.shared (s.pc i) ≡ some (m, p)
    → IsCurrent n s
    → IsCurrent n (record { shared = m; pc = put s.pc i p })
step-IsCurrent n i s m p h e c = record {
  balanced = step-IsBalanced n i s m p h e c.balanced;
  fresh =
      put-all (λ j q. j < n → IsFresh m q) s.pc i p (λ _. step-IsFresh-self s.shared m (s.pc i) p e)
        (λ j ne k.
          step-IsFresh-other s.shared m (s.pc i) p (s.pc j) e
            (not-both_writing n s i j c.balanced h k ne) (c.fresh j k));
}

start-IsFresh :
    (is_reader : ℕ → Bool) (i : ℕ) → IsFresh (start is_reader).shared ((start is_reader).pc i)
start-IsFresh is_reader i = elim (Bool-cases (is_reader i)) [ inl e ↦ rw e tt | inr e ↦ rw e tt ]

-- Whatever the schedule, a value that a writer has loaded is current until it is written back.
pub run-IsCurrent :
    (n : ℕ) (is_reader : ℕ → Bool) (is : List ℕ) → IsCurrent n (run step n is (start is_reader))
run-IsCurrent n is_reader is =
    run-keeps step n (IsCurrent n) (step-IsCurrent n) is (start is_reader)
      (record { balanced = start-IsBalanced n is_reader; fresh = λ i h. start-IsFresh is_reader i })
