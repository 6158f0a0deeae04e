-- ===== src/Structures/Queue/Threads/Laws.antt =====
-- What every order of the threads' statements keeps of the queue of `queue.c`.
use c_advanced_problems.Prelude.{
  ℕ, ◌+◌, ◌≤◌, ◌<◌, ◌≡◌, ◌≢◌, refl, sym, ◌∙◌, ap, subst, none, some, List, [], ◌∷◌, ◌++◌, length,
  arith, drop, length-append, ◌⊎◌, inl, inr, ℕ_discrete,
}
use c_advanced_problems.Prelude.Tally.{put}
use c_advanced_problems.Structures.Nodes.{Heap, Chain}
use c_advanced_problems.Structures.Nodes.Owners.{Queued-Chain}
use c_advanced_problems.Structures.Queue.Threads.Invariant.{IsSound, Stands, start-IsSound}
use c_advanced_problems.Structures.Queue.Threads.Locks.{After}
use c_advanced_problems.Structures.Queue.Threads.Steps.{step-IsSound}
use c_advanced_problems.Structures.Queue.Threads.{Shared, Task, Pc, crashed, step, start}
use c_advanced_problems.Sync.Interleaving.{System, run, run-keeps}

module _ (malloc : Heap → ℕ → ℕ)
    (fresh : (h : Heap) (top : ℕ)
      → ((a : ℕ) → top ≤ a → h a ≡ none)
      → h (malloc h top) ≡ none) where
  pub keeps-IsSound :
      (n i : ℕ) (s : System Shared Pc) (m : Shared) (p : Pc)
      → i < n
      → step malloc s.shared (s.pc i) ≡ some (m, p)
      → IsSound n s
      → IsSound n (record { shared = m; pc = put s.pc i p })
  keeps-IsSound n i s m p lt e c =
      subst (After n i s) e (step-IsSound malloc fresh n i s c lt (s.pc i) refl)

  pub run-IsSound :
      (heap : Heap) (top place : ℕ)
      → ((a : ℕ) → top ≤ a → heap a ≡ none)
      → (tasks : ℕ → List Task) (n : ℕ) (is : List ℕ)
      → IsSound n (run (step malloc) n is (start heap top place tasks))
  run-IsSound heap top place empty tasks n is =
      run-keeps (step malloc) n (IsSound n) (keeps-IsSound n) is (start heap top place tasks)
        (start-IsSound heap top place n empty tasks)

drop-length : (xs ys : List ℕ) → drop (length xs) (xs ++ ys) ≡ ys
drop-length [] ys = refl
drop-length (x ∷ xs) ys = drop-length xs ys

-- What is behind the dummy node.
pub IsSound-rest :
    (n : ℕ) (s : System Shared Pc) (c : IsSound n s) → c.rest ≡ drop s.shared.taken s.shared.linked
IsSound-rest n s c =
    sym (drop-length c.gone c.rest)
    ∙ ap (λ (k : ℕ). drop k (c.gone ++ c.rest)) c.count
    ∙ ap (drop s.shared.taken) (sym c.parts)

pub IsSound-length :
    (n : ℕ) (s : System Shared Pc) (c : IsSound n s)
    → length s.shared.linked ≡ s.shared.taken + length c.rest
IsSound-length n s c = omega (arith, c.count, ap length c.parts, length-append c.gone c.rest)

pub not-crashed : (n : ℕ) (s : System Shared Pc) → IsSound n s → (i : ℕ) → i < n → s.pc i ≢ crashed
not-crashed n s c i lt e = subst (Stands s.shared c.owner c.last i) e (c.stands i lt)

tail-settled :
    (n : ℕ) (s : System Shared Pc) (c : IsSound n s)
    → (s.shared.taillock ≡ 0) ⊎ (s.shared.tail ≡ c.last)
tail-settled n s c = elim (ℕ_discrete s.shared.taillock 1) [
  | yes free ↦ inr (c.settled free)
  | no held ↦ inl (omega (arith, held, c.tail_held))
]

-- `n` threads after the turns of a schedule.
abbrev pub reached :
    (malloc : Heap → ℕ → ℕ) (heap : Heap) (top place : ℕ) (tasks : ℕ → List Task) (n : ℕ)
    → List ℕ
    → System Shared Pc
reached malloc heap top place tasks n is = run (step malloc) n is (start heap top place tasks)

-- The nodes from `head` on hold, behind a dummy node, what was linked and not removed, in the order in
-- which it was linked; and `tail` is the last of them where `taillock` is not held.
abbrev pub Ordered : Shared → Type 0
Ordered m =
    (last : ℕ) × ((dummy : ℕ) × (Chain m.heap m.head last dummy (drop m.taken m.linked)
        × ((m.taillock ≡ 0) ⊎ (m.tail ≡ last))))

-- Whatever heap `initQueue` finds and whatever calls the `n` threads are to make: in every order of their
-- statements, none of them follows a pointer that leads to no node, no more values are removed than were
-- linked, and from `q->head` there are nodes with the values that were linked and not removed, in the order
-- in which they were linked, behind a dummy node. Where `taillock` is not held, `q->tail` is the last of
-- them. The heap is
-- empty from `top` on, and `malloc` is asked to return an address where nothing is, given a heap and
-- from where on it is empty.
pub threads-fifo :
    (malloc : Heap → ℕ → ℕ) (heap : Heap) (top place : ℕ) (tasks : ℕ → List Task) (n : ℕ)
    (is : List ℕ)
    → ((h : Heap) (top : ℕ) → ((a : ℕ) → top ≤ a → h a ≡ none) → h (malloc h top) ≡ none)
    → ((a : ℕ) → top ≤ a → heap a ≡ none)
    → (i : ℕ) → i < n
    → ((reached malloc heap top place tasks n is).pc i ≢ crashed)
      × (((reached malloc heap top place tasks n is).shared.taken
            ≤ length (reached malloc heap top place tasks n is).shared.linked)
          × Ordered (reached malloc heap top place tasks n is).shared)
threads-fifo malloc heap top place tasks n is fresh empty i lt =
    let s = reached malloc heap top place tasks n is in
    let c = run-IsSound malloc fresh heap top place empty tasks n is in
    (
      not-crashed n s c i lt,
      (
        omega (arith, IsSound-length n s c),
        (
          c.last,
          (
            c.front,
            (
              subst (Chain s.shared.heap s.shared.head c.last c.front) (IsSound-rest n s c)
                  (Queued-Chain s.shared.heap c.owner s.shared.head c.last c.front c.rest c.chain),
              tail-settled n s c,
            ),
          ),
        ),
      ),
    )
