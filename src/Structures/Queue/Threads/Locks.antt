-- ===== src/Structures/Queue/Threads/Locks.antt =====
-- The statements of the threads of `queue.c` that touch no more than the locks.
use c_advanced_problems.Prelude.{
  ℕ, ◌+◌, ◌<◌, ◌≡◌, refl, Option, none, some, if◌then◌else◌, Bool, true, false,
}
use c_advanced_problems.Prelude.Tally.{put}
use c_advanced_problems.Structures.Queue.Threads.Invariant.{
  holds_head, holds_tail, Stands, IsSound, sound,
}
use c_advanced_problems.Structures.Queue.Threads.{
  Shared, Pc, next_task, lock_tail, link, move_tail, unlock_tail, read_head, read_next,
  unlock_empty, move_head, unlock_head, release, crashed,
}
use c_advanced_problems.Sync.Interleaving.{System}

-- Soundness after what a step returned.
abbrev pub After : (n i : ℕ) (s : System Shared Pc) → Option (Shared × Pc) → Type 0
After n i s none = Unit
After n i s (some (m, p)) = IsSound n (record { shared = m; pc = put s.pc i p })

-- A step that waits at a taken lock.
pub After-guard :
    (n i : ℕ) (s : System Shared Pc) (b : Bool) (m : Shared) (p : Pc)
    → (b ≡ false → After n i s (some (m, p)))
    → After n i s (if b then none else some (m, p))
After-guard n i s true m p f = tt
After-guard n i s false m p f = f refl

module _ (n i : ℕ) (s : System Shared Pc) (c : IsSound n s) (lt : i < n) where
  -- A step that touches the locks alone.
  pub locks :
      (p p' : Pc) (h t : ℕ)
      → s.pc i ≡ p
      → h + holds_head p' ≡ s.shared.headlock + holds_head p
      → t + holds_tail p' ≡ s.shared.taillock + holds_tail p
      → (t ≡ 1 → s.shared.tail ≡ c.last)
      → Stands s.shared c.owner c.last i p'
      → After n i s (some (record s.shared { headlock = h; taillock = t }, p'))
  locks p p' h t at hh ht settled st =
      sound n i s p (record s.shared { headlock = h; taillock = t }) p' c c.owner c.last c.front
        c.gone c.rest lt at hh ht settled c.above c.live c.chain c.parts c.count (stays p' st)
        (record {
          own = λ j a ne w. (w, refl);
          at_tail = λ e. (refl, refl);
          at_head = λ e. (refl, λ v x k. k);
        })
    where
      stays :
          (q : Pc)
          → Stands s.shared c.owner c.last i q
          → Stands (record s.shared { headlock = h; taillock = t }) c.owner c.last i q
      stays (next_task tasks) st = st
      stays (lock_tail node value tasks) st = st
      stays (link node value tasks) st = st
      stays (move_tail node tasks) st = st
      stays (unlock_tail tasks) st = st
      stays (read_head tasks) st = st
      stays (read_next current tasks) st = st
      stays (unlock_empty tasks) st = st
      stays (move_head current new_head tasks) st = st
      stays (unlock_head current tasks) st = st
      stays (release current tasks) st = st
      stays crashed st = st
