-- ===== src/Structures/LinkedList/Threads/Counts.antt =====
-- What the threads of `linked-list.c` are still to link.
use c_advanced_problems.Prelude.{
  ℕ, ◌+◌, ◌<◌, ◌≡◌, ◌≢◌, refl, some, List, [], ◌∷◌, arith, if◌then◌else◌, ◌==◌,
}
use c_advanced_problems.Prelude.Tally.{put, tally, tally-put, tally-same}
use c_advanced_problems.Structures.Nodes.{Heap}
use c_advanced_problems.Structures.Queue.Threads.Counts.{count, total-append}
use c_advanced_problems.Structures.LinkedList.Threads.{
  Shared, Pc, next_call, test_first, new_first, test_next, lock_next, unlock_previous, new_last,
  link, unlock_last, crashed, step, start,
}
use c_advanced_problems.Sync.Interleaving.{System}

-- How often the thread is still to link `v`.
abbrev pub to_link : (v : ℕ) → Pc → ℕ
to_link v (next_call values) = count v values
to_link v (test_first current value values) = count v (value ∷ values)
to_link v (new_first current value values) = count v (value ∷ values)
to_link v (test_next current value values) = count v (value ∷ values)
to_link v (lock_next previous current value values) = count v (value ∷ values)
to_link v (unlock_previous previous current value values) = count v (value ∷ values)
to_link v (new_last current value values) = count v (value ∷ values)
to_link v (link current node value values) = count v (value ∷ values)
to_link v (unlock_last current values) = count v values
to_link v crashed = 0

step-count :
    (malloc : Heap → ℕ → ℕ) (v : ℕ) (m m' : Shared) (p p' : Pc)
    → step malloc m p ≡ some (m', p')
    → p' ≢ crashed
    → count v m'.added + to_link v p' ≡ count v m.added + to_link v p
unfolding step
step-count malloc v m m' (next_call []) p' e ne = absurd cc
step-count malloc v m m' (next_call (value ∷ values)) p' e ne = ground arith
step-count malloc v m m' (link current node value values) p' e ne =
    ground (arith, ne, total-append (λ x. if x == v then 1 else 0) m.added (value ∷ []))
step-count malloc v m m' _ p' e ne = ground (arith, ne)

abbrev pub IsCounted : (v : ℕ) (values : ℕ → List ℕ) (n : ℕ) → System Shared Pc → Type 0
IsCounted v values n s =
    count v s.shared.added + tally (to_link v) n s.pc ≡ tally (count v) n values

pub keeps-IsCounted :
    (malloc : Heap → ℕ → ℕ) (v : ℕ) (values : ℕ → List ℕ) (n i : ℕ) (s : System Shared Pc)
    (m : Shared) (p : Pc)
    → i < n
    → step malloc s.shared (s.pc i) ≡ some (m, p)
    → p ≢ crashed
    → IsCounted v values n s
    → IsCounted v values n (record { shared = m; pc = put s.pc i p })
keeps-IsCounted malloc v values n i s m p lt e ne c =
    omega (
      arith,
      c,
      step-count malloc v s.shared m (s.pc i) p e ne,
      tally-put (to_link v) n s.pc i p lt,
    )

pub start-IsCounted :
    (v : ℕ) (heap : Heap) (top place : ℕ) (values : ℕ → List ℕ) (n : ℕ)
    → IsCounted v values n (start heap top place values)
start-IsCounted v heap top place values n =
    omega (arith, tally-same (to_link v) (count v) n (λ i. next_call (values i)) values (λ i. refl))
