-- ===== src/Structures/Queue/Threads/Invariant.antt =====
-- What holds between two statements of the threads of `queue.c`: the locks against where the threads stand,
-- and the nodes against their owners.
use c_advanced_problems.Prelude.{
  ℕ, ◌+◌, ◌≤◌, ◌<◌, ◌≡◌, ◌≢◌, refl, sym, ◌∙◌, ap, none, some, List, [], ◌++◌, length, arith,
  if◌then◌else◌, ◌==◌,
}
use c_advanced_problems.Prelude.Tally.{put, put-all, tally, tally-put, tally-zero, two-le-tally}
use c_advanced_problems.Structures.Nodes.{Heap}
use c_advanced_problems.Structures.Nodes.Owners.{nobody, queued, thread, Owners, Queued}
use c_advanced_problems.Structures.Queue.Threads.{
  Shared, Task, Pc, next_task, lock_tail, link, move_tail, unlock_tail, read_head, read_next,
  unlock_empty, move_head, unlock_head, release, crashed, start,
}
use c_advanced_problems.Sync.Interleaving.{System}

-- 1 where the thread holds `headlock`.
abbrev pub holds_head : Pc → ℕ
holds_head (read_head tasks) = 1
holds_head (read_next current tasks) = 1
holds_head (unlock_empty tasks) = 1
holds_head (move_head current new_head tasks) = 1
holds_head (unlock_head current tasks) = 1
holds_head _ = 0

-- 1 where the thread holds `taillock`.
abbrev pub holds_tail : Pc → ℕ
holds_tail (link node value tasks) = 1
holds_tail (move_tail node tasks) = 1
holds_tail (unlock_tail tasks) = 1
holds_tail _ = 0

-- What thread `i` relies on where it stands, with `last` the last node of the queue.
abbrev pub Stands : Shared → Owners → (last i : ℕ) → Pc → Type 0
Stands m o last i (next_task tasks) = Unit
Stands m o last i (lock_tail node value tasks) =
    (o node ≡ thread i) × (m.heap node ≡ some (record { value = value; next = none }))
Stands m o last i (link node value tasks) =
    (m.tail ≡ last)
    × ((o node ≡ thread i) × (m.heap node ≡ some (record { value = value; next = none })))
Stands m o last i (move_tail node tasks) = last ≡ node
Stands m o last i (unlock_tail tasks) = m.tail ≡ last
Stands m o last i (read_head tasks) = Unit
Stands m o last i (read_next current tasks) = current ≡ m.head
Stands m o last i (unlock_empty tasks) = Unit
Stands m o last i (move_head current new_head tasks) =
    (current ≡ m.head)
    × ((v : ℕ) × (m.heap current ≡ some (record { value = v; next = some new_head })))
Stands m o last i (unlock_head current tasks) = o current ≡ thread i
Stands m o last i (release current tasks) = o current ≡ thread i
Stands m o last i crashed = ⊥

-- `gone` are the values of the nodes that were removed, and `rest` those of the queue, behind `front` in
-- the dummy node.
pub record IsSound (n : ℕ) (s : System Shared Pc) : Type 0 where
  pub owner : Owners
  pub last : ℕ
  pub front : ℕ
  pub gone : List ℕ
  pub rest : List ℕ
  pub head_held : s.shared.headlock + tally holds_head n s.pc ≡ 1
  pub tail_held : s.shared.taillock + tally holds_tail n s.pc ≡ 1
  pub settled : s.shared.taillock ≡ 1 → s.shared.tail ≡ last
  pub above : (a : ℕ) → s.shared.top ≤ a → s.shared.heap a ≡ none
  pub live : (a : ℕ) → s.shared.heap a ≡ none → owner a ≡ nobody
  pub chain : Queued s.shared.heap owner s.shared.head last front rest
  pub parts : s.shared.linked ≡ gone ++ rest
  pub count : length gone ≡ s.shared.taken
  pub stands : (i : ℕ) → i < n → Stands s.shared owner last i (s.pc i)

-- What a step of thread `i`, which stands at `p`, leaves alone for the others.
pub record Spares (m m' : Shared) (o o' : Owners) (last last' i : ℕ) (p : Pc) : Type 0 where
  pub own : (j a : ℕ) → i ≢ j → o a ≡ thread j → (o' a ≡ thread j) × (m'.heap a ≡ m.heap a)
  pub at_tail : holds_tail p ≡ 0 → (m'.tail ≡ m.tail) × (last' ≡ last)
  pub at_head :
      holds_head p ≡ 0
      → (m'.head ≡ m.head)
        × ((v x : ℕ)
            → m.heap m.head ≡ some (record { value = v; next = some x })
            → m'.heap m.head ≡ some (record { value = v; next = some x }))

-- What another thread relies on still holds.
pub Stands-other :
    (m m' : Shared) (o o' : Owners) (last last' i j : ℕ) (p q : Pc)
    → Spares m m' o o' last last' i p
    → i ≢ j
    → holds_head p + holds_head q ≤ 1
    → holds_tail p + holds_tail q ≤ 1
    → Stands m o last j q
    → Stands m' o' last' j q
Stands-other m m' o o' last last' i j p (next_task tasks) f ne h t st = tt
Stands-other m m' o o' last last' i j p (lock_tail node value tasks) f ne h t (w, e) =
    let (w', k) = f.own j node ne w in (w', k ∙ e)
Stands-other m m' o o' last last' i j p (link node value tasks) f ne h t (at, (w, e)) =
    let (w', k) = f.own j node ne w in
    let (a, b) = f.at_tail (omega (arith, t)) in (a ∙ at ∙ sym b, (w', k ∙ e))
Stands-other m m' o o' last last' i j p (move_tail node tasks) f ne h t at =
    let (a, b) = f.at_tail (omega (arith, t)) in b ∙ at
Stands-other m m' o o' last last' i j p (unlock_tail tasks) f ne h t at =
    let (a, b) = f.at_tail (omega (arith, t)) in a ∙ at ∙ sym b
Stands-other m m' o o' last last' i j p (read_head tasks) f ne h t st = tt
Stands-other m m' o o' last last' i j p (read_next current tasks) f ne h t at =
    let (a, b) = f.at_head (omega (arith, h)) in at ∙ sym a
Stands-other m m' o o' last last' i j p (unlock_empty tasks) f ne h t st = tt
Stands-other m m' o o' last last' i j p (move_head current new_head tasks) f ne h t (at, (v, e)) =
    let (a, b) = f.at_head (omega (arith, h)) in
    (at ∙ sym a, (v, ap m'.heap at ∙ b v new_head (sym (ap m.heap at) ∙ e)))
Stands-other m m' o o' last last' i j p (unlock_head current tasks) f ne h t w =
    let (w', k) = f.own j current ne w in w'
Stands-other m m' o o' last last' i j p (release current tasks) f ne h t w =
    let (w', k) = f.own j current ne w in w'
Stands-other m m' o o' last last' i j p crashed f ne h t st = elim st [ ]

-- Soundness after a step of thread `i` from `p` to `p'`.
pub sound :
    (n i : ℕ) (s : System Shared Pc) (p : Pc) (m' : Shared) (p' : Pc)
    → (c : IsSound n s) → (o' : Owners) (last' front' : ℕ) (gone' rest' : List ℕ) → i < n
    → s.pc i ≡ p
    → m'.headlock + holds_head p' ≡ s.shared.headlock + holds_head p
    → m'.taillock + holds_tail p' ≡ s.shared.taillock + holds_tail p
    → (m'.taillock ≡ 1 → m'.tail ≡ last')
    → ((a : ℕ) → m'.top ≤ a → m'.heap a ≡ none)
    → ((a : ℕ) → m'.heap a ≡ none → o' a ≡ nobody)
    → Queued m'.heap o' m'.head last' front' rest'
    → m'.linked ≡ gone' ++ rest'
    → length gone' ≡ m'.taken
    → Stands m' o' last' i p'
    → Spares s.shared m' c.owner o' c.last last' i p
    → IsSound n (record { shared = m'; pc = put s.pc i p' })
sound n i s p m' p' c o' last' front' gone' rest' lt at hh ht settled above live chain parts count
      st f =
    record {
      owner = o';
      last = last';
      front = front';
      gone = gone';
      rest = rest';
      head_held =
          omega (arith, c.head_held, hh, tally-put holds_head n s.pc i p' lt, ap holds_head at);
      tail_held =
          omega (arith, c.tail_held, ht, tally-put holds_tail n s.pc i p' lt, ap holds_tail at);
      settled = settled;
      above = above;
      live = live;
      chain = chain;
      parts = parts;
      count = count;
      stands =
          put-all (λ j q. j < n → Stands m' o' last' j q) s.pc i p' (λ _. st)
            (λ j ne k.
              Stands-other s.shared m' c.owner o' c.last last' i j p (s.pc j) f ne
                (omega (
                  arith,
                  c.head_held,
                  two-le-tally holds_head n s.pc i j lt k ne,
                  ap holds_head at,
                ))
                (omega (
                  arith,
                  c.tail_held,
                  two-le-tally holds_tail n s.pc i j lt k ne,
                  ap holds_tail at,
                ))
                (c.stands j k));
    }

-- At the start.
pub start-IsSound :
    (heap : Heap) (top place n : ℕ)
    → ((a : ℕ) → top ≤ a → heap a ≡ none)
    → (tasks : ℕ → List Task) → IsSound n (start heap top place tasks)
start-IsSound heap top place n empty tasks = record {
  owner = λ a. if place == a then queued else nobody;
  last = place;
  front = 0;
  gone = [];
  rest = [];
  head_held = rw (tally-zero holds_head n (λ i. next_task (tasks i)) (λ i. refl)) refl;
  tail_held = rw (tally-zero holds_tail n (λ i. next_task (tasks i)) (λ i. refl)) refl;
  settled = λ h. refl;
  above = λ a e. ground (arith, e, empty a);
  live = λ a e. ground (arith, e);
  chain = (refl, (ground arith, ground arith));
  parts = refl;
  count = refl;
  stands = λ i h. tt;
}
