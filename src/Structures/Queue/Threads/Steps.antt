-- ===== src/Structures/Queue/Threads/Steps.antt =====
-- Every statement of the threads of `queue.c` keeps the queue sound.
use c_advanced_problems.Prelude.{
  ℕ, ◌+◌, ◌-◌, ◌≤◌, ◌<◌, ◌≡◌, refl, subst, none, [], ◌∷◌, arith, ◌==◌,
}
use c_advanced_problems.Structures.Nodes.{Heap}
use c_advanced_problems.Structures.Queue.Threads.Invariant.{Stands, IsSound}
use c_advanced_problems.Structures.Queue.Threads.{
  Shared, enqueue_of, dequeue_one, Pc, next_task, lock_tail, link, move_tail, unlock_tail,
  read_head, read_next, unlock_empty, move_head, unlock_head, release, crashed, step,
}
use c_advanced_problems.Sync.Interleaving.{System}
use c_advanced_problems.Structures.Queue.Threads.Locks.{After, After-guard, locks}
use c_advanced_problems.Structures.Queue.Threads.Enqueue.{allocates, links, moves_tail}
use c_advanced_problems.Structures.Queue.Threads.Dequeue.{releases, moves_head, reads_next}

-- Any statement of any thread.
pub step-IsSound :
    (malloc : Heap → ℕ → ℕ)
    → ((h : Heap) (top : ℕ) → ((a : ℕ) → top ≤ a → h a ≡ none) → h (malloc h top) ≡ none)
    → (n i : ℕ) (s : System Shared Pc) (c : IsSound n s) → i < n
    → (p : Pc) → s.pc i ≡ p
    → After n i s (step malloc s.shared p)
unfolding step
step-IsSound malloc fresh n i s c lt (next_task []) at = tt
step-IsSound malloc fresh n i s c lt (next_task (enqueue_of value ∷ tasks)) at =
    allocates n i s c lt malloc value tasks fresh at
step-IsSound malloc fresh n i s c lt (next_task (dequeue_one ∷ tasks)) at =
    After-guard n i s (s.shared.headlock == 0) _ _ (λ b.
      locks n i s c lt (next_task (dequeue_one ∷ tasks)) (read_head tasks) (s.shared.headlock - 1)
        s.shared.taillock at (ground (arith, b)) refl c.settled tt)
step-IsSound malloc fresh n i s c lt (lock_tail node value tasks) at =
    let (mine, full) = subst (Stands s.shared c.owner c.last i) at (c.stands i lt) in
    After-guard n i s (s.shared.taillock == 0) _ _ (λ b.
      locks n i s c lt (lock_tail node value tasks) (link node value tasks) s.shared.headlock
        (s.shared.taillock - 1) at refl (ground (arith, b))
        (λ e. absurd (omega (arith, e, c.tail_held)))
        (c.settled (ground (arith, b, c.tail_held)), (mine, full)))
step-IsSound malloc fresh n i s c lt (link node value tasks) at =
    links n i s c lt malloc node value tasks at
step-IsSound malloc fresh n i s c lt (move_tail node tasks) at =
    moves_tail n i s c lt malloc node tasks at
step-IsSound malloc fresh n i s c lt (unlock_tail tasks) at =
    let same = subst (Stands s.shared c.owner c.last i) at (c.stands i lt) in
    locks n i s c lt (unlock_tail tasks) (next_task tasks) s.shared.headlock (s.shared.taillock + 1)
      at refl (omega arith) (λ e. same) tt
step-IsSound malloc fresh n i s c lt (read_head tasks) at =
    locks n i s c lt (read_head tasks) (read_next s.shared.head tasks) s.shared.headlock
      s.shared.taillock at refl refl c.settled refl
step-IsSound malloc fresh n i s c lt (read_next current tasks) at =
    reads_next n i s c lt malloc current tasks c.rest at refl
step-IsSound malloc fresh n i s c lt (unlock_empty tasks) at =
    locks n i s c lt (unlock_empty tasks) (next_task tasks) (s.shared.headlock + 1)
      s.shared.taillock at (omega arith) refl c.settled tt
step-IsSound malloc fresh n i s c lt (move_head current new_head tasks) at =
    moves_head n i s c lt malloc current new_head tasks c.rest at refl
step-IsSound malloc fresh n i s c lt (unlock_head current tasks) at =
    let mine = subst (Stands s.shared c.owner c.last i) at (c.stands i lt) in
    locks n i s c lt (unlock_head current tasks) (release current tasks) (s.shared.headlock + 1)
      s.shared.taillock at (omega arith) refl c.settled mine
step-IsSound malloc fresh n i s c lt (release current tasks) at =
    releases n i s c lt malloc current tasks at
step-IsSound malloc fresh n i s c lt crashed at = tt
