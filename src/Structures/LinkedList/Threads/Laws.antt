-- ===== src/Structures/LinkedList/Threads/Laws.antt =====
-- What every order of the threads' statements keeps of the list of `linked-list.c`.
use c_advanced_problems.Prelude.{ℕ, ◌+◌, ◌≤◌, ◌<◌, ◌≡◌, ◌≢◌, refl, ◌∙◌, subst, none, some, List}
use c_advanced_problems.Prelude.Tally.{put, tally}
use c_advanced_problems.Structures.Nodes.{Heap, Chain}
use c_advanced_problems.Structures.Nodes.Owners.{Queued-Chain, put-same}
use c_advanced_problems.Structures.LinkedList.Threads.Invariant.{IsSound, Stands, start-IsSound}
use c_advanced_problems.Structures.LinkedList.Threads.Locks.{After}
use c_advanced_problems.Structures.LinkedList.Threads.Steps.{step-IsSound}
use c_advanced_problems.Structures.LinkedList.Threads.{Shared, Pc, crashed, step, start}
use c_advanced_problems.Structures.Queue.Threads.Counts.{count}
use c_advanced_problems.Structures.LinkedList.Threads.Counts.{
  to_link, IsCounted, keeps-IsCounted, start-IsCounted,
}
use c_advanced_problems.Sync.Interleaving.{System, run, run-keeps}

-- `n` threads after the turns of a schedule.
abbrev pub reached :
    (malloc : Heap → ℕ → ℕ) (heap : Heap) (top place : ℕ) (values : ℕ → List ℕ) (n : ℕ)
    → List ℕ
    → System Shared Pc
reached malloc heap top place values n is = run (step malloc) n is (start heap top place values)

pub not-crashed : (n : ℕ) (s : System Shared Pc) → IsSound n s → (i : ℕ) → i < n → s.pc i ≢ crashed
not-crashed n s c i lt e = subst (Stands s.shared.heap c.owner c.place i) e (c.stands i lt)

both-kept :
    (malloc : Heap → ℕ → ℕ)
    → ((h : Heap) (top : ℕ) → ((a : ℕ) → top ≤ a → h a ≡ none) → h (malloc h top) ≡ none)
    → (v : ℕ) (values : ℕ → List ℕ) (n i : ℕ) (s : System Shared Pc) (m : Shared) (p : Pc) → i < n
    → step malloc s.shared (s.pc i) ≡ some (m, p)
    → IsSound n s × IsCounted v values n s
    → IsSound n (record { shared = m; pc = put s.pc i p })
      × IsCounted v values n (record { shared = m; pc = put s.pc i p })
both-kept malloc fresh v values n i s m p lt e (c, d) =
    let sound = subst (After n i s) e (step-IsSound malloc fresh n i s c lt (s.pc i) refl) in
    (
      sound,
      keeps-IsCounted malloc v values n i s m p lt e
          (λ k. not-crashed n _ sound i lt (put-same s.pc i p ∙ k)) d,
    )

run-both :
    (malloc : Heap → ℕ → ℕ)
    → ((h : Heap) (top : ℕ) → ((a : ℕ) → top ≤ a → h a ≡ none) → h (malloc h top) ≡ none)
    → (heap : Heap) (top place : ℕ) → ((a : ℕ) → top ≤ a → heap a ≡ none)
    → (v : ℕ) (values : ℕ → List ℕ) (n : ℕ) (is : List ℕ)
    → IsSound n (reached malloc heap top place values n is)
      × IsCounted v values n (reached malloc heap top place values n is)
run-both malloc fresh heap top place empty v values n is =
    run-keeps (step malloc) n (λ s. IsSound n s × IsCounted v values n s)
      (both-kept malloc fresh v values n) is (start heap top place values)
      (start-IsSound heap top place n empty values, start-IsCounted v heap top place values n)

pub run-IsSound :
    (malloc : Heap → ℕ → ℕ)
    → ((h : Heap) (top : ℕ) → ((a : ℕ) → top ≤ a → h a ≡ none) → h (malloc h top) ≡ none)
    → (heap : Heap) (top place : ℕ) → ((a : ℕ) → top ≤ a → heap a ≡ none)
    → (values : ℕ → List ℕ) (n : ℕ) (is : List ℕ)
    → IsSound n (reached malloc heap top place values n is)
run-IsSound malloc fresh heap top place empty values n is =
    (run-both malloc fresh heap top place empty 0 values n is).0

-- The nodes from `head` on hold, behind a dummy node, what was linked, in the order in which it was linked.
abbrev pub Ordered : Shared → Type 0
Ordered m = (last : ℕ) × ((dummy : ℕ) × Chain m.heap m.head last dummy m.added)

-- Whatever heap `initList` finds and whatever values the `n` threads are to add: in every order of their
-- statements, none of them follows a pointer that leads to no node, and from `list->head` there are nodes
-- with the values that were linked, in the order in which they were linked, behind a dummy node.
-- How often a value was linked and how often the threads are still to link it add up to how often it is
-- among the values that they are to add. The heap is empty from `top` on, and `malloc` is asked to return an address
-- where nothing is, given a heap and from where on it is empty.
pub hand_over_hand-Ordered :
    (malloc : Heap → ℕ → ℕ) (heap : Heap) (top place : ℕ) (values : ℕ → List ℕ) (n : ℕ)
    (is : List ℕ)
    → ((h : Heap) (top : ℕ) → ((a : ℕ) → top ≤ a → h a ≡ none) → h (malloc h top) ≡ none)
    → ((a : ℕ) → top ≤ a → heap a ≡ none)
    → (i v : ℕ) → i < n
    → ((reached malloc heap top place values n is).pc i ≢ crashed)
      × ((count v (reached malloc heap top place values n is).shared.added
              + tally (to_link v) n (reached malloc heap top place values n is).pc
            ≡ tally (count v) n values)
          × Ordered (reached malloc heap top place values n is).shared)
hand_over_hand-Ordered malloc heap top place values n is fresh empty i v lt =
    let s = reached malloc heap top place values n is in
    let (c, d) = run-both malloc fresh heap top place empty v values n is in
    (
      not-crashed n s c i lt,
      (
        d,
        (
          c.last,
          (
            c.front,
            Queued-Chain s.shared.heap c.owner s.shared.head c.last c.front s.shared.added c.chain,
          ),
        ),
      ),
    )
