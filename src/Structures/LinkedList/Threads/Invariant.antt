-- ===== src/Structures/LinkedList/Threads/Invariant.antt =====
-- What holds between two statements of the threads of `linked-list.c`.
use c_advanced_problems.Prelude.{
  ℕ, ◌+◌, ◌≤◌, ◌<◌, ◌≡◌, ◌≢◌, refl, sym, ◌∙◌, ap, none, some, List, length, arith, if◌then◌else◌,
  ◌==◌, dec_lt,
}
use c_advanced_problems.Prelude.Tally.{
  put, put-all, tally, tally-put, tally-zero, tally-none, two-le-tally,
}
use c_advanced_problems.Structures.Nodes.{Heap}
use c_advanced_problems.Structures.Nodes.Owners.{nobody, queued, thread, Owners, Queued}
use c_advanced_problems.Structures.LinkedList.Threads.{
  Shared, Pc, next_call, test_first, new_first, test_next, lock_next, unlock_previous, new_last,
  link, unlock_last, crashed, start,
}
use c_advanced_problems.Sync.Interleaving.{System}

-- 1 where the thread holds the lock of the node at `a`.
abbrev pub holds : (a : ℕ) → Pc → ℕ
holds a (test_first current value values) = if current == a then 1 else 0
holds a (new_first current value values) = if current == a then 1 else 0
holds a (test_next current value values) = if current == a then 1 else 0
holds a (lock_next previous current value values) = if previous == a then 1 else 0
holds a (unlock_previous previous current value values) =
    (if previous == a then 1 else 0) + (if current == a then 1 else 0)
holds a (new_last current value values) = if current == a then 1 else 0
holds a (link current node value values) = if current == a then 1 else 0
holds a (unlock_last current values) = if current == a then 1 else 0
holds a _ = 0

-- Here ends the list.
abbrev pub IsEnd : Heap → ℕ → Type 0
IsEnd h a = (w : ℕ) × (h a ≡ some (record { value = w; next = none }))

-- What thread `i` relies on where it stands. A node of the list is `queued`, and `place` is how many nodes
-- are before it.
abbrev pub Stands : Heap → Owners → (place : ℕ → ℕ) → (i : ℕ) → Pc → Type 0
Stands h o place i (next_call values) = Unit
Stands h o place i (test_first current value values) = o current ≡ queued
Stands h o place i (new_first current value values) = (o current ≡ queued) × IsEnd h current
Stands h o place i (test_next current value values) = o current ≡ queued
Stands h o place i (lock_next previous current value values) =
    (o previous ≡ queued) × ((o current ≡ queued) × (place current ≡ place previous + 1))
Stands h o place i (unlock_previous previous current value values) =
    (o previous ≡ queued) × (o current ≡ queued)
Stands h o place i (new_last current value values) = (o current ≡ queued) × IsEnd h current
Stands h o place i (link current node value values) =
    (o current ≡ queued)
    × (IsEnd h current
        × ((o node ≡ thread i) × (h node ≡ some (record { value = value; next = none }))))
Stands h o place i (unlock_last current values) = o current ≡ queued
Stands h o place i crashed = ⊥

pub record IsSound (n : ℕ) (s : System Shared Pc) : Type 0 where
  pub owner : Owners
  pub place : ℕ → ℕ
  pub last : ℕ
  pub front : ℕ
  pub held : (a : ℕ) → s.shared.locks a + tally (holds a) n s.pc ≡ 1
  pub above : (a : ℕ) → s.shared.top ≤ a → s.shared.heap a ≡ none
  pub live : (a : ℕ) → s.shared.heap a ≡ none → owner a ≡ nobody
  pub chain : Queued s.shared.heap owner s.shared.head last front s.shared.added
  pub ends : (a : ℕ) → owner a ≡ queued → IsEnd s.shared.heap a → a ≡ last
  pub nexts :
      (a w b : ℕ)
      → owner a ≡ queued
      → s.shared.heap a ≡ some (record { value = w; next = some b })
      → (owner b ≡ queued) × (place b ≡ place a + 1)
  pub places : (a : ℕ) → owner a ≡ queued → place a ≤ length s.shared.added
  pub final : place last ≡ length s.shared.added
  pub stands : (i : ℕ) → i < n → Stands s.shared.heap owner place i (s.pc i)

-- A thread that stands at `p` may take the place of the one that stood there, and the others go on.
pub record Spares (h h' : Heap) (o o' : Owners) (place place' : ℕ → ℕ) (i : ℕ) (p : Pc)
    : Type 0 where
  pub own : (j a : ℕ) → i ≢ j → o a ≡ thread j → (o' a ≡ thread j) × (h' a ≡ h a)
  pub listed : (a : ℕ) → o a ≡ queued → (o' a ≡ queued) × (place' a ≡ place a)
  pub elsewhere : (a : ℕ) → o a ≡ queued → holds a p ≡ 0 → h' a ≡ h a

-- What another thread relies on still holds.
pub Stands-other :
    (h h' : Heap) (o o' : Owners) (place place' : ℕ → ℕ) (i j : ℕ) (p q : Pc)
    → Spares h h' o o' place place' i p
    → i ≢ j
    → ((a : ℕ) → holds a p + holds a q ≤ 1)
    → Stands h o place j q
    → Stands h' o' place' j q
Stands-other h h' o o' place place' i j p (next_call values) f ne l st = tt
Stands-other h h' o o' place place' i j p (test_first current value values) f ne l w =
    (f.listed current w).0
Stands-other h h' o o' place place' i j p (new_first current value values) f ne l (w, (v, e)) =
    ((f.listed current w).0, (v, f.elsewhere current w (ground (arith, l current)) ∙ e))
Stands-other h h' o o' place place' i j p (test_next current value values) f ne l w =
    (f.listed current w).0
Stands-other h h' o o' place place' i j p (lock_next previous current value values) f ne l
      (w, (w', e)) =
    let (a, b) = f.listed previous w in
    let (c, d) = f.listed current w' in (a, (c, d ∙ e ∙ ap (λ (k : ℕ). k + 1) (sym b)))
Stands-other h h' o o' place place' i j p (unlock_previous previous current value values) f ne l
      (w, w') =
    ((f.listed previous w).0, (f.listed current w').0)
Stands-other h h' o o' place place' i j p (new_last current value values) f ne l (w, (v, e)) =
    ((f.listed current w).0, (v, f.elsewhere current w (ground (arith, l current)) ∙ e))
Stands-other h h' o o' place place' i j p (link current node value values) f ne l
      (w, ((v, e), (own, g))) =
    let (a, b) = f.own j node ne own in
    (
      (f.listed current w).0,
      ((v, f.elsewhere current w (ground (arith, l current)) ∙ e), (a, b ∙ g)),
    )
Stands-other h h' o o' place place' i j p (unlock_last current values) f ne l w =
    (f.listed current w).0
Stands-other h h' o o' place place' i j p crashed f ne l st = elim st [ ]

-- Who holds the lock of a node relies on it to be one of the list.
holder-queued :
    (h : Heap) (o : Owners) (place : ℕ → ℕ) (i a : ℕ) (p : Pc)
    → Stands h o place i p
    → 0 < holds a p
    → o a ≡ queued
holder-queued h o place i a (next_call values) st lt = absurd (omega (arith, lt))
holder-queued h o place i a (unlock_previous previous current value values) (w, w') lt =
    ground (arith, w, w')
holder-queued h o place i a crashed st lt = absurd (omega (arith, lt))
holder-queued h o place i a _ st lt = ground arith

pub not-held :
    (n : ℕ) (s : System Shared Pc) (c : IsSound n s) (a : ℕ)
    → c.owner a ≡ nobody
    → s.shared.locks a ≡ 1
not-held n s c a e = omega (
  arith,
  c.held a,
  tally-none (holds a) n s.pc (λ i lt. elim (dec_lt 0 (holds a (s.pc i))) [
    | yes some_lock ↦
        let w =
          holder-queued s.shared.heap c.owner c.place i a (s.pc i) (c.stands i lt) some_lock in
        absurd (cc)
    | no none_held ↦ omega (arith, none_held)
  ]),
)

-- Soundness after a step of thread `i` from `p` to `p'`.
pub sound :
    (n i : ℕ) (s : System Shared Pc) (p : Pc) (m' : Shared) (p' : Pc)
    → (c : IsSound n s) → (o' : Owners) (place' : ℕ → ℕ) (last' : ℕ) → i < n
    → s.pc i ≡ p
    → ((a : ℕ) → m'.locks a + holds a p' ≡ s.shared.locks a + holds a p)
    → ((a : ℕ) → m'.top ≤ a → m'.heap a ≡ none)
    → ((a : ℕ) → m'.heap a ≡ none → o' a ≡ nobody)
    → Queued m'.heap o' m'.head last' c.front m'.added
    → ((a : ℕ) → o' a ≡ queued → IsEnd m'.heap a → a ≡ last')
    → ((a w b : ℕ)
        → o' a ≡ queued
        → m'.heap a ≡ some (record { value = w; next = some b })
        → (o' b ≡ queued) × (place' b ≡ place' a + 1))
    → ((a : ℕ) → o' a ≡ queued → place' a ≤ length m'.added)
    → place' last' ≡ length m'.added
    → Stands m'.heap o' place' i p'
    → Spares s.shared.heap m'.heap c.owner o' c.place place' i p
    → IsSound n (record { shared = m'; pc = put s.pc i p' })
sound n i s p m' p' c o' place' last' lt at held above live chain ends nexts places final st f =
    record {
      owner = o';
      place = place';
      last = last';
      front = c.front;
      held =
          λ a. omega (arith, c.held a, held a, tally-put (holds a) n s.pc i p' lt, ap (holds a) at);
      above = above;
      live = live;
      chain = chain;
      ends = ends;
      nexts = nexts;
      places = places;
      final = final;
      stands =
          put-all (λ j q. j < n → Stands m'.heap o' place' j q) s.pc i p' (λ _. st)
            (λ j ne k.
              Stands-other s.shared.heap m'.heap c.owner o' c.place place' i j p (s.pc j) f ne
                (λ a.
                  omega
                    (arith, c.held a, two-le-tally (holds a) n s.pc i j lt k ne, ap (holds a) at))
                (c.stands j k));
    }

pub start-IsSound :
    (heap : Heap) (top place n : ℕ)
    → ((a : ℕ) → top ≤ a → heap a ≡ none)
    → (values : ℕ → List ℕ) → IsSound n (start heap top place values)
start-IsSound heap top place n empty values = record {
  owner = λ a. if place == a then queued else nobody;
  place = λ a. 0;
  last = place;
  front = 0;
  held = λ a. rw (tally-zero (holds a) n (λ i. next_call (values i)) (λ i. refl)) refl;
  above = λ a e. ground (arith, e, empty a);
  live = λ a e. ground (arith, e);
  chain = (refl, (ground arith, ground arith));
  ends = λ a e k. ground (arith, e);
  nexts = λ a w b e k. ground (arith, e, k);
  places = λ a e. omega arith;
  final = refl;
  stands = λ i h. tt;
}
