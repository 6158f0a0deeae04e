-- ===== src/Structures/LinkedList/Threads/Progress.antt =====
-- The hand-over-hand locks of `linked-list.c` do not deadlock: who waits for a node waits for one further
-- behind than all nodes that it holds.
use c_advanced_problems.Prelude.{
  ℕ, zero, suc, ◌+◌, ◌≤◌, ◌<◌, ◌≡◌, refl, ◌∙◌, ap, subst, none, List, [], ◌∷◌, length, arith, Bool,
  true, false, ℕ_discrete,
}
use c_advanced_problems.Prelude.Tally.{tally-pos}
use c_advanced_problems.Structures.Nodes.{Heap}
use c_advanced_problems.Structures.Nodes.Owners.{queued}
use c_advanced_problems.Structures.LinkedList.Threads.Invariant.{holds, IsSound, Stands}
use c_advanced_problems.Structures.LinkedList.Threads.Steps.{head-queued}
use c_advanced_problems.Structures.LinkedList.Threads.Laws.{reached, run-IsSound}
use c_advanced_problems.Structures.LinkedList.Threads.{
  Shared, Pc, next_call, lock_next, crashed, step,
}
use c_advanced_problems.Sync.Interleaving.{System}
use c_advanced_problems.Sync.Termination.{can_step, waits-unless}

-- A thread has made all its calls.
abbrev pub is_finished : Pc → Bool
is_finished (next_call []) = true
is_finished _ = false

-- Where a thread may wait.
abbrev may_wait : Pc → Bool
may_wait (next_call values) = true
may_wait (lock_next previous current value values) = true
may_wait crashed = true
may_wait _ = false

module _ (malloc : Heap → ℕ → ℕ) where
  free-steps :
      (m : Shared) (previous current value : ℕ) (values : List ℕ)
      → 0 < m.locks current
      → can_step (step malloc) m (lock_next previous current value values) ≡ true
  unfolding step
  free-steps m previous current value values h = waits-unless _ _ _ (ground (arith, h))

  first-steps :
      (m : Shared) (value : ℕ) (values : List ℕ)
      → 0 < m.locks m.head
      → can_step (step malloc) m (next_call (value ∷ values)) ≡ true
  unfolding step
  first-steps m value values h = waits-unless _ _ _ (ground (arith, h))

  -- Every other statement.
  others-step :
      (m : Shared) (p : Pc)
      → is_finished p ≡ false
      → may_wait p ≡ false
      → can_step (step malloc) m p ≡ true
  unfolding step
  others-step m (next_call values) f t = absurd cc
  others-step m _ f t = ground arith

  module _ (n : ℕ) (s : System Shared Pc) (c : IsSound n s) where
    abbrev CanGoOn : Type 0
    CanGoOn = (j : ℕ) × (j < n) × (can_step (step malloc) s.shared (s.pc j) ≡ true)

    here :
        (i : ℕ) (p : Pc) → i < n → s.pc i ≡ p → can_step (step malloc) s.shared p ≡ true → CanGoOn
    here i p h at e = (i, h, ap (can_step (step malloc) s.shared) at ∙ e)

    -- Thread `i` holds the lock of `a`: it can go on, or it waits for the node behind `a`, where `beyond`
    -- finds a thread.
    holder-goes :
        (a i : ℕ) (p : Pc)
        → i < n
        → s.pc i ≡ p
        → 0 < holds a p
        → ((b : ℕ)
            → c.owner b ≡ queued
            → s.shared.locks b ≡ 0
            → c.place b ≡ c.place a + 1
            → CanGoOn)
        → CanGoOn
    holder-goes a i (next_call values) h at w beyond = absurd (omega (arith, w))
    holder-goes a i crashed h at w beyond = absurd (omega (arith, w))
    holder-goes a i (lock_next previous current value values) h at w beyond =
        let (before, (mine, e)) =
          subst (Stands s.shared.heap c.owner c.place i) at (c.stands i h) in
        let same : previous ≡ a = ground (arith, w) in
        elim (ℕ_discrete (s.shared.locks current) 0) [
          | yes taken ↦ beyond current mine taken (e ∙ ap (λ (k : ℕ). c.place k + 1) same)
          | no free ↦
              here i (lock_next previous current value values) h at
                (free-steps s.shared previous current value values (omega (arith, free)))
        ]
    holder-goes a i p h at w beyond = here i p h at (others-step s.shared p refl refl)

    -- Of the holders of the locks from a node on, one can go on.
    chase :
        (k a : ℕ)
        → c.owner a ≡ queued
        → s.shared.locks a ≡ 0
        → length s.shared.added < c.place a + k
        → CanGoOn
    chase zero a mine taken lt = absurd (omega (arith, lt, c.places a mine))
    chase (suc k) a mine taken lt =
        let (i, h, w) = tally-pos (holds a) n s.pc (omega (arith, taken, c.held a)) in
        holder-goes a i (s.pc i) h refl w
          (λ b own busy e. chase k b own busy (omega (arith, lt, e)))

    waiting-goes : (a : ℕ) → c.owner a ≡ queued → s.shared.locks a ≡ 0 → CanGoOn
    waiting-goes a mine taken = chase (suc (length s.shared.added)) a mine taken (omega arith)

    thread-goes : (i : ℕ) (p : Pc) → i < n → s.pc i ≡ p → is_finished p ≡ false → CanGoOn
    thread-goes i (next_call []) h at f = absurd cc
    thread-goes i (next_call (value ∷ values)) h at f =
        let m = s.shared in
        elim (ℕ_discrete (m.locks m.head) 0) [
          | yes taken ↦
              waiting-goes m.head (head-queued m.heap c.owner m.head c.last c.front m.added c.chain)
                taken
          | no free ↦
              here i (next_call (value ∷ values)) h at
                (first-steps m value values (omega (arith, free)))
        ]
    thread-goes i (lock_next previous current value values) h at f =
        let (before, (mine, e)) =
          subst (Stands s.shared.heap c.owner c.place i) at (c.stands i h) in
        elim (ℕ_discrete (s.shared.locks current) 0) [
          | yes taken ↦ waiting-goes current mine taken
          | no free ↦
              here i (lock_next previous current value values) h at
                (free-steps s.shared previous current value values (omega (arith, free)))
        ]
    thread-goes i crashed h at f =
        elim (subst (Stands s.shared.heap c.owner c.place i) at (c.stands i h)) [ ]
    thread-goes i p h at f = here i p h at (others-step s.shared p f refl)

-- As long as one of the `n` threads has values to add, one of them can go on, after any order of their
-- statements: locking hand over hand, they do not wait for each other in a circle. The heap is empty from
-- `top` on, and `malloc` is asked to return an address where nothing is, given a heap and from where on it is
-- empty.
pub hand_over_hand-Progress :
    (malloc : Heap → ℕ → ℕ) (heap : Heap) (top place : ℕ) (values : ℕ → List ℕ) (n : ℕ)
    (is : List ℕ)
    → ((h : Heap) (top : ℕ) → ((a : ℕ) → top ≤ a → h a ≡ none) → h (malloc h top) ≡ none)
    → ((a : ℕ) → top ≤ a → heap a ≡ none)
    → (i : ℕ) → i < n
    → is_finished ((reached malloc heap top place values n is).pc i) ≡ false
    → (j : ℕ) × (j < n)
      × (can_step
            (step malloc)
            (reached malloc heap top place values n is).shared
            ((reached malloc heap top place values n is).pc j)
          ≡ true)
hand_over_hand-Progress malloc heap top place values n is fresh empty i lt waits =
    let s = reached malloc heap top place values n is in
    thread-goes malloc n s (run-IsSound malloc fresh heap top place empty values n is) i (s.pc i) lt
      refl waits
