-- ===== src/Sync/Barrier/Invariant.antt =====
-- Who has arrived, and who lets the barrier pass.
use c_advanced_problems.Prelude.{ℕ, ◌+◌, ◌≤◌, ◌<◌, ◌≡◌, ◌≢◌, refl, ◌⊎◌, some, List, arith}
use c_advanced_problems.Prelude.Tally.{
  put, tally, tally-put, tally-zero, tally-full, tally-dominated, le-tally,
}
use c_advanced_problems.Sync.Interleaving.{System, run, run-keeps}
use c_advanced_problems.Sync.Barrier.{
  Shared, Pc, before, arrive, post_mutex, test, open_barrier, post_barrier, after, finished, step,
  start,
}

-- 1 between `sem_wait(&b->mutex)` and `sem_post(&b->mutex)`.
abbrev pub in_mutex : Pc → ℕ
in_mutex arrive = 1
in_mutex post_mutex = 1
in_mutex _ = 0

-- 1 behind `b->count++`.
abbrev pub arrived : Pc → ℕ
arrived before = 0
arrived arrive = 0
arrived _ = 1

-- 1 between `b->count++` and the test of it.
abbrev pub untested : Pc → ℕ
untested post_mutex = 1
untested test = 1
untested _ = 0

-- 1 for a thread that is about to post the barrier.
abbrev pub opening : Pc → ℕ
opening open_barrier = 1
opening post_barrier = 1
opening _ = 0

-- 1 behind the barrier.
abbrev pub passed : Pc → ℕ
passed post_barrier = 1
passed after = 1
passed finished = 1
passed _ = 0

-- The shared memory of `n` threads against how many stand at each of these places.
pub record Balanced (n : ℕ) (m : Shared) (h a u o q : ℕ) : Type 0 where
  pub threads : m.threads ≡ n
  pub mutex : m.mutex + h ≡ 1
  pub count : m.count ≡ a
  pub closed : (m.count ≡ n) ⊎ (m.barrier + o + q ≡ 0)
  pub all_in : (m.count ≢ n) ⊎ (0 < m.barrier + o + u)

-- What the place `p` of a thread has to do with the counts.
pub record Stands (n : ℕ) (p : Pc) (h a u o q : ℕ) : Type 0 where
  pub in_mutex_at : in_mutex p ≤ h
  pub arrived_at : a + 1 ≤ n + arrived p
  pub opening_at : opening p ≤ o
  pub untested_at : untested p ≤ u
  pub passed_at : passed p ≤ q

step-Balanced :
    (n : ℕ) (m m' : Shared) (p p' : Pc) (h a u o q h' a' u' o' q' : ℕ)
    → step m p ≡ some (m', p')
    → Balanced n m h a u o q
    → Stands n p h a u o q
    → h' + in_mutex p ≡ h + in_mutex p'
    → a' + arrived p ≡ a + arrived p'
    → u' + untested p ≡ u + untested p'
    → o' + opening p ≡ o + opening p'
    → q' + passed p ≡ q + passed p'
    → Balanced n m' h' a' u' o' q'
unfolding step
step-Balanced n m m' before p' h a u o q h' a' u' o' q' e b s e1 e2 e3 e4 e5 = ground arith
step-Balanced n m m' _ p' h a u o q h' a' u' o' q' e b s e1 e2 e3 e4 e5 = ground arith

-- The counts of the `n` threads of a system.
abbrev pub IsBalanced : ℕ → System Shared Pc → Type 0
IsBalanced n s =
    Balanced n s.shared (tally in_mutex n s.pc) (tally arrived n s.pc) (tally untested n s.pc)
      (tally opening n s.pc) (tally passed n s.pc)

pub arrived-le : (p : Pc) → arrived p ≤ 1
arrived-le before = omega arith
arrived-le _ = omega arith

stands :
    (n : ℕ) (f : ℕ → Pc) (i : ℕ)
    → i < n
    → Stands n
        (f i)
        (tally in_mutex n f)
        (tally arrived n f)
        (tally untested n f)
        (tally opening n f)
        (tally passed n f)
stands n f i h = record {
  in_mutex_at = le-tally in_mutex n f i h;
  arrived_at = omega (
    arith,
    tally-dominated arrived (λ _. 1) arrived-le n f i h,
    tally-full (λ _. 1) n f (λ j k. refl),
  );
  opening_at = le-tally opening n f i h;
  untested_at = le-tally untested n f i h;
  passed_at = le-tally passed n f i h;
}

step-IsBalanced :
    (n i : ℕ) (s : System Shared Pc) (m : Shared) (p : Pc)
    → i < n
    → step s.shared (s.pc i) ≡ some (m, p)
    → IsBalanced n s
    → IsBalanced n (record { shared = m; pc = put s.pc i p })
step-IsBalanced n i s m p h e b =
    step-Balanced n s.shared m (s.pc i) p _ _ _ _ _ _ _ _ _ _ e b (stands n s.pc i h)
      (tally-put in_mutex n s.pc i p h) (tally-put arrived n s.pc i p h)
      (tally-put untested n s.pc i p h) (tally-put opening n s.pc i p h)
      (tally-put passed n s.pc i p h)

start-zero : (w : Pc → ℕ) (n : ℕ) → w before ≡ 0 → tally w n (start n).pc ≡ 0
start-zero w n e = tally-zero w n _ (λ i. e)

start-IsBalanced : (n : ℕ) → 0 < n → IsBalanced n (start n)
start-IsBalanced n pos =
    rw
      (
        start-zero in_mutex n refl,
        start-zero arrived n refl,
        start-zero untested n refl,
        start-zero opening n refl,
        start-zero passed n refl,
      )
      (ground arith)

-- Whatever the schedule, the shared memory agrees with where the threads stand.
pub run-IsBalanced : (n : ℕ) (is : List ℕ) → 0 < n → IsBalanced n (run step n is (start n))
run-IsBalanced n is pos =
    run-keeps step n (IsBalanced n) (step-IsBalanced n) is (start n) (start-IsBalanced n pos)
