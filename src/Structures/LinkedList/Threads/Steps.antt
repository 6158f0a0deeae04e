-- ===== src/Structures/LinkedList/Threads/Steps.antt =====
-- Every statement of the threads of `linked-list.c` keeps the list sound.
use c_advanced_problems.Prelude.{
  ℕ, ◌+◌, ◌-◌, ◌≤◌, ◌<◌, ◌≡◌, ◌≢◌, refl, sym, ap, subst, Option, none, some, List, [], ◌∷◌, arith,
  ◌==◌, Option-cases, inl, inr, ◌⊎◌,
}
use c_advanced_problems.Prelude.Tally.{put}
use c_advanced_problems.Structures.Nodes.{Node, Heap}
use c_advanced_problems.Structures.Nodes.Owners.{queued, Owners, Queued}
use c_advanced_problems.Structures.LinkedList.Threads.{
  Shared, Pc, next_call, test_first, new_first, test_next, lock_next, unlock_previous, new_last,
  link, unlock_last, crashed, step, new_node,
}
use c_advanced_problems.Structures.LinkedList.Threads.Invariant.{IsEnd, Stands, IsSound}
use c_advanced_problems.Sync.Interleaving.{System}
use c_advanced_problems.Structures.LinkedList.Threads.Locks.{After, After-guard, locks, allocates}
use c_advanced_problems.Structures.LinkedList.Threads.Link.{links}

new_last-step :
    (malloc : Heap → ℕ → ℕ) (m : Shared) (current value w : ℕ) (values : List ℕ)
    → m.heap current ≡ some (record { value = w; next = none })
    → step malloc m (new_last current value values)
      ≡ some (
        new_node m (malloc m.heap m.top) value none,
        link current (malloc m.heap m.top) value values,
      )
unfolding step
new_last-step malloc m current value w values e = rw (e, step) refl

test_first-step :
    (malloc : Heap → ℕ → ℕ) (m : Shared) (current value w : ℕ) (next : Option ℕ) (values : List ℕ)
    → m.heap current ≡ some (record { value = w; next = next })
    → step malloc m (test_first current value values)
      ≡ some (
        m,
        elim next [
          | none ↦ new_first current value values
          | some b ↦ test_next current value values
        ],
      )
unfolding step
test_first-step malloc m current value w none values e = rw (e, step) refl
test_first-step malloc m current value w (some b) values e = rw (e, step) refl

test_next-step :
    (malloc : Heap → ℕ → ℕ) (m : Shared) (current value w : ℕ) (next : Option ℕ) (values : List ℕ)
    → m.heap current ≡ some (record { value = w; next = next })
    → step malloc m (test_next current value values)
      ≡ some (
        m,
        elim next [
          | none ↦ new_last current value values
          | some b ↦ lock_next current b value values
        ],
      )
unfolding step
test_next-step malloc m current value w none values e = rw (e, step) refl
test_next-step malloc m current value w (some b) values e = rw (e, step) refl

-- What a node of the list is.
node-cases :
    (o : Option Node)
    → o ≢ none
    → ((w : ℕ) × (o ≡ some (record { value = w; next = none })))
      ⊎ ((w : ℕ) × ((b : ℕ) × (o ≡ some (record { value = w; next = some b }))))
node-cases none ne = absurd (ne refl)
node-cases (some node) ne = elim (Option-cases node.next) [
  | inl e ↦ inl (node.value, ap (λ x. some (record { value = node.value; next = x })) e)
  | inr (b, e) ↦ inr (node.value, (b, ap (λ x. some (record { value = node.value; next = x })) e))
]

module _ (n i : ℕ) (s : System Shared Pc) (c : IsSound n s) (lt : i < n) where
  -- A node of the list is there.
  listed-node :
      (current : ℕ)
      → c.owner current ≡ queued
      → IsEnd s.shared.heap current
        ⊎ ((w : ℕ) × ((b : ℕ) × (s.shared.heap current
                ≡ some (record { value = w; next = some b }))))
  listed-node current mine =
      node-cases (s.shared.heap current) (λ empty. let k = c.live current empty in cc)

  tests_first :
      (malloc : Heap → ℕ → ℕ) (current value : ℕ) (values : List ℕ)
      → s.pc i ≡ test_first current value values
      → After n i s (step malloc s.shared (test_first current value values))
  tests_first malloc current value values at =
      let mine = subst (Stands s.shared.heap c.owner c.place i) at (c.stands i lt) in
      elim (listed-node current mine) [
        | inl (w, e) ↦
            subst (After n i s)
              (sym (test_first-step malloc s.shared current value w none values e))
              (locks n i s c lt (test_first current value values) (new_first current value values)
                s.shared.locks at (λ a. refl) (mine, (w, e)))
        | inr (w, (b, e)) ↦
            subst (After n i s)
              (sym (test_first-step malloc s.shared current value w (some b) values e))
              (locks n i s c lt (test_first current value values) (test_next current value values)
                s.shared.locks at (λ a. refl) mine)
      ]

  tests_next :
      (malloc : Heap → ℕ → ℕ) (current value : ℕ) (values : List ℕ)
      → s.pc i ≡ test_next current value values
      → After n i s (step malloc s.shared (test_next current value values))
  tests_next malloc current value values at =
      let mine = subst (Stands s.shared.heap c.owner c.place i) at (c.stands i lt) in
      elim (listed-node current mine) [
        | inl (w, e) ↦
            subst (After n i s) (sym (test_next-step malloc s.shared current value w none values e))
              (locks n i s c lt (test_next current value values) (new_last current value values)
                s.shared.locks at (λ a. refl) (mine, (w, e)))
        | inr (w, (b, e)) ↦
            let (q, r) = c.nexts current w b mine e in
            subst (After n i s)
              (sym (test_next-step malloc s.shared current value w (some b) values e))
              (locks n i s c lt (test_next current value values) (lock_next current b value values)
                s.shared.locks at (λ a. refl) (mine, (q, r)))
      ]

-- The first node is one of the list.
pub head-queued :
    (h : Heap) (o : Owners) (p t v : ℕ) (xs : List ℕ) → Queued h o p t v xs → o p ≡ queued
head-queued h o p t v [] (same, (w, e)) = w
head-queued h o p t v (x ∷ xs) (p', (w, r)) = w

-- Any statement of any thread.
pub step-IsSound :
    (malloc : Heap → ℕ → ℕ)
    → ((h : Heap) (top : ℕ) → ((a : ℕ) → top ≤ a → h a ≡ none) → h (malloc h top) ≡ none)
    → (n i : ℕ) (s : System Shared Pc) (c : IsSound n s) → i < n
    → (p : Pc) → s.pc i ≡ p
    → After n i s (step malloc s.shared p)
unfolding step
step-IsSound malloc fresh n i s c lt (next_call []) at = tt
step-IsSound malloc fresh n i s c lt (next_call (value ∷ values)) at =
    let m = s.shared in
    After-guard n i s (m.locks m.head == 0) _ _ (λ b.
      locks n i s c lt (next_call (value ∷ values)) (test_first m.head value values)
        (put m.locks m.head (m.locks m.head - 1)) at (λ a. ground (arith, b))
        (head-queued m.heap c.owner m.head c.last c.front m.added c.chain))
step-IsSound malloc fresh n i s c lt (test_first current value values) at =
    tests_first n i s c lt malloc current value values at
step-IsSound malloc fresh n i s c lt (new_first current value values) at =
    let (mine, e) = subst (Stands s.shared.heap c.owner c.place i) at (c.stands i lt) in
    allocates n i s c lt malloc (new_first current value values) current value values fresh at mine
      e (λ a. refl)
step-IsSound malloc fresh n i s c lt (test_next current value values) at =
    tests_next n i s c lt malloc current value values at
step-IsSound malloc fresh n i s c lt (lock_next previous current value values) at =
    let m = s.shared in
    let (before, (mine, e)) = subst (Stands m.heap c.owner c.place i) at (c.stands i lt) in
    After-guard n i s (m.locks current == 0) _ _ (λ b.
      locks n i s c lt (lock_next previous current value values)
        (unlock_previous previous current value values) (put m.locks current (m.locks current - 1))
        at (λ a. ground (arith, b)) (before, mine))
step-IsSound malloc fresh n i s c lt (unlock_previous previous current value values) at =
    let m = s.shared in
    let (before, mine) = subst (Stands m.heap c.owner c.place i) at (c.stands i lt) in
    locks n i s c lt (unlock_previous previous current value values)
      (test_next current value values) (put m.locks previous (m.locks previous + 1)) at
      (λ a. ground arith) mine
step-IsSound malloc fresh n i s c lt (new_last current value values) at =
    let (mine, (w, e)) = subst (Stands s.shared.heap c.owner c.place i) at (c.stands i lt) in
    subst (After n i s) (sym (new_last-step malloc s.shared current value w values e)) (
      allocates n i s c lt malloc (new_last current value values) current value values fresh at mine
        (w, e) (λ a. refl))
step-IsSound malloc fresh n i s c lt (link current node value values) at =
    links n i s c lt malloc current node value values at
step-IsSound malloc fresh n i s c lt (unlock_last current values) at =
    locks n i s c lt (unlock_last current values) (next_call values)
      (put s.shared.locks current (s.shared.locks current + 1)) at (λ a. ground arith) tt
step-IsSound malloc fresh n i s c lt crashed at = tt
