-- ===== src/Sync/NoStarveMutex/Invariant.antt =====
-- Who is in which room, and who holds the right to pass a turnstile.
use c_advanced_problems.Prelude.{ℕ, ◌+◌, ◌≤◌, ◌<◌, ◌≡◌, ◌≢◌, refl, ◌⊎◌, some, List, arith}
use c_advanced_problems.Prelude.Tally.{
  put, tally, tally-put, tally-zero, tally-add, tally-dominated, le-tally, two-le-tally,
}
use c_advanced_problems.Sync.Interleaving.{System, run, run-keeps}
use c_advanced_problems.Sync.NoStarveMutex.{
  Shared, Pc, acquire, enter_room1, post_entered, pass_turnstile1, enter_room2, lock_room1,
  leave_room1, post_last, open_turnstile2, post_more, open_turnstile1, pass_turnstile2, leave_room2,
  load, store, release, release1, release2, step, start,
}

-- 1 between `sem_wait(&m->mutex)` and `sem_post(&m->mutex)`.
abbrev pub in_mutex : Pc → ℕ
in_mutex enter_room1 = 1
in_mutex post_entered = 1
in_mutex leave_room1 = 1
in_mutex post_last = 1
in_mutex post_more = 1
in_mutex _ = 0

-- 1 behind a turnstile that has not been opened again.
abbrev pub past : Pc → ℕ
past enter_room2 = 1
past lock_room1 = 1
past leave_room1 = 1
past post_last = 1
past open_turnstile2 = 1
past post_more = 1
past open_turnstile1 = 1
past leave_room2 = 1
past load = 1
past (store loaded) = 1
past release = 1
past release1 = 1
past release2 = 1
past _ = 0

abbrev pub in_room1 : Pc → ℕ
in_room1 post_entered = 1
in_room1 pass_turnstile1 = 1
in_room1 enter_room2 = 1
in_room1 lock_room1 = 1
in_room1 leave_room1 = 1
in_room1 _ = 0

abbrev pub in_room2 : Pc → ℕ
in_room2 lock_room1 = 1
in_room2 leave_room1 = 1
in_room2 post_last = 1
in_room2 open_turnstile2 = 1
in_room2 post_more = 1
in_room2 open_turnstile1 = 1
in_room2 pass_turnstile2 = 1
in_room2 leave_room2 = 1
in_room2 _ = 0

-- 1 where the thread has seen room 1 occupied, room 2 empty, and room 2 occupied.
abbrev pub saw_more : Pc → ℕ
saw_more post_more = 1
saw_more open_turnstile1 = 1
saw_more _ = 0

abbrev pub saw_empty : Pc → ℕ
saw_empty release1 = 1
saw_empty _ = 0

abbrev pub saw_waiting : Pc → ℕ
saw_waiting release2 = 1
saw_waiting _ = 0

-- The shared memory against how many threads stand at each of these places.
pub record Balanced (m : Shared) (h t a b x y z : ℕ) : Type 0 where
  pub mutex : m.mutex + h ≡ 1
  pub turnstiles : m.drehkreuz1 + m.drehkreuz2 + t ≡ 1
  pub room1 : m.warteraum1 ≡ a
  pub room2 : m.warteraum2 ≡ b
  pub more : (x ≡ 0) ⊎ (0 < m.warteraum1)
  pub none_waits : (y ≡ 0) ⊎ (m.warteraum2 ≡ 0)
  pub one_waits : (z ≡ 0) ⊎ (0 < m.warteraum2)
  pub first_open : (m.drehkreuz1 ≡ 0) ⊎ ((m.warteraum2 ≡ 0) ⊎ (0 < m.warteraum1))
  pub second_open : (m.drehkreuz2 ≡ 0) ⊎ (0 < m.warteraum2)
  pub few : x + y + z ≤ t

-- What the place `p` of a thread has to do with the counts.
pub record Stands (p : Pc) (h t a b x y z : ℕ) : Type 0 where
  pub in_mutex_at : in_mutex p ≤ h
  pub past_at : past p ≤ t
  pub in_room1_at : in_room1 p ≤ a
  pub in_room2_at : in_room2 p ≤ b
  pub saw_more_at : saw_more p ≤ x
  pub saw_empty_at : saw_empty p ≤ y
  pub saw_waiting_at : saw_waiting p ≤ z
  pub few_at : x + y + z + past p ≤ t + saw_more p + saw_empty p + saw_waiting p

step-Balanced :
    (m m' : Shared) (p p' : Pc) (h t a b x y z h' t' a' b' x' y' z' : ℕ)
    → step m p ≡ some (m', p')
    → Balanced m h t a b x y z
    → Stands p h t a b x y z
    → h' + in_mutex p ≡ h + in_mutex p'
    → t' + past p ≡ t + past p'
    → a' + in_room1 p ≡ a + in_room1 p'
    → b' + in_room2 p ≡ b + in_room2 p'
    → x' + saw_more p ≡ x + saw_more p'
    → y' + saw_empty p ≡ y + saw_empty p'
    → z' + saw_waiting p ≡ z + saw_waiting p'
    → Balanced m' h' t' a' b' x' y' z'
unfolding step
step-Balanced m m' acquire p' h t a b x y z h' t' a' b' x' y' z' e bal s e1 e2 e3 e4 e5 e6 e7 =
    ground arith
step-Balanced m m' _ p' h t a b x y z h' t' a' b' x' y' z' e bal s e1 e2 e3 e4 e5 e6 e7 =
    ground arith

-- The counts of the `n` threads of a system.
abbrev pub IsBalanced : ℕ → System Shared Pc → Type 0
IsBalanced n s =
    Balanced s.shared (tally in_mutex n s.pc) (tally past n s.pc) (tally in_room1 n s.pc)
      (tally in_room2 n s.pc) (tally saw_more n s.pc) (tally saw_empty n s.pc)
      (tally saw_waiting n s.pc)

-- 1 at the places where a thread has seen something.
abbrev saw : Pc → ℕ
saw p = saw_more p + saw_empty p + saw_waiting p

saw-le : (p : Pc) → saw p ≤ past p
saw-le acquire = omega arith
saw-le _ = omega arith

tally-saw :
    (n : ℕ) (f : ℕ → Pc)
    → tally saw n f ≡ tally saw_more n f + tally saw_empty n f + tally saw_waiting n f
tally-saw n f = omega (
  arith,
  tally-add (λ p. saw_more p + saw_empty p) saw_waiting n f,
  tally-add saw_more saw_empty n f,
)

stands :
    (n : ℕ) (f : ℕ → Pc) (i : ℕ)
    → i < n
    → Stands
        (f i)
        (tally in_mutex n f)
        (tally past n f)
        (tally in_room1 n f)
        (tally in_room2 n f)
        (tally saw_more n f)
        (tally saw_empty n f)
        (tally saw_waiting n f)
stands n f i h = record {
  in_mutex_at = le-tally in_mutex n f i h;
  past_at = le-tally past n f i h;
  in_room1_at = le-tally in_room1 n f i h;
  in_room2_at = le-tally in_room2 n f i h;
  saw_more_at = le-tally saw_more n f i h;
  saw_empty_at = le-tally saw_empty n f i h;
  saw_waiting_at = le-tally saw_waiting n f i h;
  few_at = omega (arith, tally-dominated saw past saw-le n f i h, tally-saw n f);
}

pub step-IsBalanced :
    (n i : ℕ) (s : System Shared Pc) (m : Shared) (p : Pc)
    → i < n
    → step s.shared (s.pc i) ≡ some (m, p)
    → IsBalanced n s
    → IsBalanced n (record { shared = m; pc = put s.pc i p })
step-IsBalanced n i s m p h e b =
    step-Balanced s.shared m (s.pc i) p _ _ _ _ _ _ _ _ _ _ _ _ _ _ e b (stands n s.pc i h)
      (tally-put in_mutex n s.pc i p h) (tally-put past n s.pc i p h)
      (tally-put in_room1 n s.pc i p h) (tally-put in_room2 n s.pc i p h)
      (tally-put saw_more n s.pc i p h) (tally-put saw_empty n s.pc i p h)
      (tally-put saw_waiting n s.pc i p h)

start-zero : (w : Pc → ℕ) (n : ℕ) → w acquire ≡ 0 → tally w n (start).pc ≡ 0
start-zero w n e = tally-zero w n _ (λ i. e)

pub start-IsBalanced : (n : ℕ) → IsBalanced n start
start-IsBalanced n =
    rw
      (
        start-zero in_mutex n refl,
        start-zero past n refl,
        start-zero in_room1 n refl,
        start-zero in_room2 n refl,
        start-zero saw_more n refl,
        start-zero saw_empty n refl,
        start-zero saw_waiting n refl,
      )
      (ground arith)

-- Whatever the schedule, the shared memory agrees with where the threads stand.
pub run-IsBalanced : (n : ℕ) (is : List ℕ) → IsBalanced n (run step n is start)
run-IsBalanced n is =
    run-keeps step n (IsBalanced n) (step-IsBalanced n) is start (start-IsBalanced n)

-- Of two threads one at most is past a turnstile.
pub not-both_past :
    (n : ℕ) (s : System Shared Pc) (i j : ℕ)
    → IsBalanced n s
    → i < n
    → j < n
    → i ≢ j
    → past (s.pc i) + past (s.pc j) ≤ 1
not-both_past n s i j b h k ne = ground (arith, two-le-tally past n s.pc i j h k ne)
