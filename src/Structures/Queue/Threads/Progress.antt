-- ===== src/Structures/Queue/Threads/Progress.antt =====
-- As long as a thread of `queue.c` has not returned, one can go on.
use c_advanced_problems.Prelude.{
  ℕ, ◌+◌, ◌<◌, ◌≡◌, refl, none, some, List, [], ◌∷◌, arith, Bool, true, false, dec_lt,
}
use c_advanced_problems.Prelude.Tally.{tally-pos}
use c_advanced_problems.Structures.Nodes.{Heap}
use c_advanced_problems.Structures.Queue.Threads.Invariant.{holds_head, holds_tail, IsSound}
use c_advanced_problems.Structures.Queue.Threads.{
  Shared, Task, enqueue_of, dequeue_one, Pc, next_task, lock_tail, link, move_tail, unlock_tail,
  read_head, read_next, unlock_empty, move_head, unlock_head, release, crashed, step,
}
use c_advanced_problems.Sync.Interleaving.{System}
use c_advanced_problems.Sync.Termination.{can_step, waits-unless}

-- How many statements a thread has left.
unfoldable pub calls_left : List Task → ℕ
calls_left [] = 0
calls_left (task ∷ tasks) = 7 + calls_left tasks

unfoldable pub rank : Pc → ℕ
unfolding calls_left
rank (next_task tasks) = calls_left tasks
rank (lock_tail node value tasks) = 5 + calls_left tasks
rank (link node value tasks) = 4 + calls_left tasks
rank (move_tail node tasks) = 3 + calls_left tasks
rank (unlock_tail tasks) = 2 + calls_left tasks
rank (read_head tasks) = 6 + calls_left tasks
rank (read_next current tasks) = 5 + calls_left tasks
rank (unlock_empty tasks) = 1 + calls_left tasks
rank (move_head current new_head tasks) = 4 + calls_left tasks
rank (unlock_head current tasks) = 3 + calls_left tasks
rank (release current tasks) = 1 + calls_left tasks
rank crashed = 0

pub drops :
    (malloc : Heap → ℕ → ℕ) (m m' : Shared) (p p' : Pc)
    → step malloc m p ≡ some (m', p')
    → rank p' < rank p
unfolding step rank calls_left
drops malloc m m' (next_task []) p' e = absurd cc
drops malloc m m' (next_task (enqueue_of value ∷ tasks)) p' e = ground arith
drops malloc m m' (next_task (dequeue_one ∷ tasks)) p' e = ground arith
drops malloc m m' (link node value tasks) p' e = ground arith
drops malloc m m' _ p' e = ground arith

-- A thread has returned, or cannot go on.
abbrev pub is_finished : Pc → Bool
is_finished (next_task []) = true
is_finished crashed = true
is_finished _ = false

pub finished-stays :
    (malloc : Heap → ℕ → ℕ) (m : Shared) (p : Pc) → is_finished p ≡ true → step malloc m p ≡ none
unfolding step
finished-stays malloc m (next_task []) e = refl
finished-stays malloc m (next_task (task ∷ tasks)) e = absurd cc
finished-stays malloc m crashed e = refl
finished-stays malloc m _ e = absurd cc

free-steps :
    (malloc : Heap → ℕ → ℕ) (m : Shared) (p : Pc)
    → is_finished p ≡ false
    → 0 < m.headlock
    → 0 < m.taillock
    → can_step (step malloc) m p ≡ true
unfolding step
free-steps malloc m (next_task []) f h t = absurd cc
free-steps malloc m (next_task (enqueue_of value ∷ tasks)) f h t = refl
free-steps malloc m (next_task (dequeue_one ∷ tasks)) f h t = waits-unless _ _ _ (ground (arith, h))
free-steps malloc m (lock_tail node value tasks) f h t = waits-unless _ _ _ (ground (arith, t))
free-steps malloc m _ f h t = ground arith

holder-steps :
    (malloc : Heap → ℕ → ℕ) (m : Shared) (p : Pc)
    → 0 < holds_head p + holds_tail p
    → can_step (step malloc) m p ≡ true
unfolding step
holder-steps malloc m (next_task tasks) h = absurd (omega (arith, h))
holder-steps malloc m (lock_tail node value tasks) h = absurd (omega (arith, h))
holder-steps malloc m _ h = ground arith

-- As long as a thread has not returned, one can go on.
pub progress :
    (malloc : Heap → ℕ → ℕ) (n : ℕ) (s : System Shared Pc)
    → IsSound n s
    → (i : ℕ) → i < n
    → is_finished (s.pc i) ≡ false
    → (j : ℕ) × (j < n) × (can_step (step malloc) s.shared (s.pc j) ≡ true)
progress malloc n s c i lt f = elim (dec_lt 0 s.shared.headlock) [
  | yes head ↦ elim (dec_lt 0 s.shared.taillock) [
    | yes tail ↦ (i, lt, free-steps malloc s.shared (s.pc i) f head tail)
    | no held ↦
        let (j, k, w) = tally-pos holds_tail n s.pc (omega (arith, held, c.tail_held)) in
        (j, k, holder-steps malloc s.shared (s.pc j) (omega (arith, w)))
  ]
  | no held ↦
      let (j, k, w) = tally-pos holds_head n s.pc (omega (arith, held, c.head_held)) in
      (j, k, holder-steps malloc s.shared (s.pc j) (omega (arith, w)))
]
