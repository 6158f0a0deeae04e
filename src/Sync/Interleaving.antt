-- ===== src/Sync/Interleaving.antt =====
-- Threads that take turns in any order. A program gives the step of one thread: from the shared memory
-- and where the thread stands, or `none` where the thread waits or has finished. A semaphore is a
-- number: `sem_wait` waits at 0 and otherwise subtracts 1, `sem_post` adds 1 (POSIX).
use c_advanced_problems.Prelude.{
  ℕ, zero, suc, ◌<◌, ◌≡◌, refl, Option, none, some, List, [], ◌∷◌, dec_lt, arith,
}
use c_advanced_problems.Prelude.Tally.{put}

-- The shared memory, and where each thread stands.
pub record System (M P : Type 0) : Type 0 where
  pub shared : M
  pub pc : ℕ → P

module _ {M P : Type 0} where
  abbrev pub moved : System M P → ℕ → Option (M × P) → System M P
  moved s i none = s
  moved s i (some (m, p)) = record { shared = m; pc = put s.pc i p }

module _ {M P : Type 0} (step : M → P → Option (M × P)) (n : ℕ) where
  -- Thread `i` gets its turn; there are `n` threads.
  unfoldable pub turn : ℕ → System M P → System M P
  unfolding dec_lt
  turn i s = elim (dec_lt i n) [ yes h ↦ moved s i (step s.shared (s.pc i)) | no h ↦ s ]

  -- The threads get their turns in the order of the schedule.
  unfoldable pub run : List ℕ → System M P → System M P
  unfolding turn
  run [] s = s
  run (i ∷ is) s = run is (turn i s)

  -- What every step of every thread keeps, every schedule keeps.
  pub run-keeps :
      (I : System M P → Type 0)
      → ((i : ℕ) (s : System M P) (m : M) (p : P)
          → i < n
          → step s.shared (s.pc i) ≡ some (m, p)
          → I s
          → I (record { shared = m; pc = put s.pc i p }))
      → (is : List ℕ) (s : System M P) → I s
      → I (run is s)
  unfolding run
  run-keeps I keep [] s h = h
  run-keeps I keep (i ∷ is) s h = run-keeps I keep is (turn i s) (once (dec_lt i n))
    where
      after : (o : Option (M × P)) → i < n → step s.shared (s.pc i) ≡ o → I (moved s i o)
      after none lt e = h
      after (some (m, p)) lt e = keep i s m p lt e h

      once :
          (d : Dec (i < n)) → I (elim d [ yes lt ↦ moved s i (step s.shared (s.pc i)) | no ge ↦ s ])
      once (yes lt) = after (step s.shared (s.pc i)) lt refl
      once (no ge) = h

  -- The same of two threads, with what is kept as a relation of the shared memory and both places.
  pub run-keeps_two :
      n ≡ 2
      → (I : M → P → P → Type 0)
      → ((m m' : M) (p p' q : P) → step m p ≡ some (m', p') → I m p q → I m' p' q)
      → ((m m' : M) (p q q' : P) → step m q ≡ some (m', q') → I m p q → I m' p q')
      → (is : List ℕ) (s : System M P) → I s.shared (s.pc 0) (s.pc 1)
      → I (run is s).shared ((run is s).pc 0) ((run is s).pc 1)
  run-keeps_two two I first second is s = run-keeps (λ s. I s.shared (s.pc 0) (s.pc 1)) keep is s
    where
      keep :
          (i : ℕ) (s : System M P) (m : M) (p : P)
          → i < n
          → step s.shared (s.pc i) ≡ some (m, p)
          → I s.shared (s.pc 0) (s.pc 1)
          → I m (put s.pc i p 0) (put s.pc i p 1)
      keep zero s m p h e k = first s.shared m (s.pc 0) p (s.pc 1) e k
      keep (suc zero) s m p h e k = second s.shared m (s.pc 0) (s.pc 1) p e k
      keep (suc (suc i)) s m p h e k = absurd (omega arith)

  -- The same of three threads.
  pub run-keeps_three :
      n ≡ 3
      → (I : M → P → P → P → Type 0)
      → ((m m' : M) (p p' q r : P) → step m p ≡ some (m', p') → I m p q r → I m' p' q r)
      → ((m m' : M) (p q q' r : P) → step m q ≡ some (m', q') → I m p q r → I m' p q' r)
      → ((m m' : M) (p q r r' : P) → step m r ≡ some (m', r') → I m p q r → I m' p q r')
      → (is : List ℕ) (s : System M P) → I s.shared (s.pc 0) (s.pc 1) (s.pc 2)
      → I (run is s).shared ((run is s).pc 0) ((run is s).pc 1) ((run is s).pc 2)
  run-keeps_three three I first second third is s =
      run-keeps (λ s. I s.shared (s.pc 0) (s.pc 1) (s.pc 2)) keep is s
    where
      keep :
          (i : ℕ) (s : System M P) (m : M) (p : P)
          → i < n
          → step s.shared (s.pc i) ≡ some (m, p)
          → I s.shared (s.pc 0) (s.pc 1) (s.pc 2)
          → I m (put s.pc i p 0) (put s.pc i p 1) (put s.pc i p 2)
      keep zero s m p h e k = first s.shared m (s.pc 0) p (s.pc 1) (s.pc 2) e k
      keep (suc zero) s m p h e k = second s.shared m (s.pc 0) (s.pc 1) p (s.pc 2) e k
      keep (suc (suc zero)) s m p h e k = third s.shared m (s.pc 0) (s.pc 1) (s.pc 2) p e k
      keep (suc (suc (suc i))) s m p h e k = absurd (omega arith)

  -- Where every thread waits or has finished, no schedule changes anything.
  pub run-blocked :
      (s : System M P)
      → ((i : ℕ) → i < n → step s.shared (s.pc i) ≡ none)
      → (is : List ℕ) → run is s ≡ s
  unfolding run turn
  run-blocked s blocked [] = refl
  run-blocked s blocked (i ∷ is) = rw (waits (dec_lt i n)) (run-blocked s blocked is)
    where
      waits :
          (d : Dec (i < n)) → elim d [ yes lt ↦ moved s i (step s.shared (s.pc i)) | no ge ↦ s ] ≡ s
      waits (yes lt) = rw (blocked i lt)
      waits (no ge) = refl
