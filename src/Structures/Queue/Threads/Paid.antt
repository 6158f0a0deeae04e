-- ===== src/Structures/Queue/Threads/Paid.antt =====
-- In `main` of `queue.c` every call of `dequeue` finds a value.
use c_advanced_problems.Prelude.{
  ℕ, ◌+◌, ◌≤◌, ◌<◌, ◌≡◌, sym, ◌∙◌, ap, subst, none, some, List, [], ◌∷◌, length, arith, false,
}
use c_advanced_problems.Prelude.Tally.{put, put-all, tally, tally-put, le-tally}
use c_advanced_problems.Structures.Nodes.{Heap}
use c_advanced_problems.Structures.Nodes.Owners.{Owners, Queued, put-same}
use c_advanced_problems.Structures.Queue.Threads.Invariant.{Stands, IsSound}
use c_advanced_problems.Structures.Queue.Threads.Laws.{keeps-IsSound, IsSound-length, not-crashed}
use c_advanced_problems.Structures.Queue.Threads.Counts.{
  total, to_link, to_take, needs, is_lost, step-counts, step-not-lost,
}
use c_advanced_problems.Structures.Queue.Threads.{Shared, Task, Pc, read_next, step}
use c_advanced_problems.Sync.Interleaving.{System}

-- The queue is sound, `links` is the sum of `f` over the values linked and to be linked, `takes` is the same for
-- the removals, and every call of `dequeue` will find a value.
pub record IsPaid (n : ℕ) (f : ℕ → ℕ) (links takes : ℕ) (s : System Shared Pc) : Type 0 where
  pub is_sound : IsSound n s
  pub linked : total f s.shared.linked + tally (to_link f) n s.pc ≡ links
  pub removed : s.shared.taken + tally to_take n s.pc ≡ takes
  pub afforded : s.shared.taken + tally needs n s.pc ≤ length s.shared.linked
  pub found : (i : ℕ) → i < n → is_lost (s.pc i) ≡ false

-- The first node of a queue that is not empty.
first-node :
    (h : Heap) (o : Owners) (p t v : ℕ) (xs : List ℕ)
    → 0 < length xs
    → Queued h o p t v xs
    → (w : ℕ) × ((x : ℕ) × (h p ≡ some (record { value = w; next = some x })))
first-node h o p t v [] lt q = absurd (omega (arith, lt))
first-node h o p t v (x ∷ xs) lt (p', (k, (e, r))) = (v, (p', e))

reads-node :
    (n i : ℕ) (f : ℕ → ℕ) (links takes : ℕ) (s : System Shared Pc)
    → IsPaid n f links takes s
    → i < n
    → (current : ℕ) (tasks : List Task) → s.pc i ≡ read_next current tasks
    → (w : ℕ) × ((x : ℕ) × (s.shared.heap current ≡ some (record { value = w; next = some x })))
reads-node n i f links takes s c lt current tasks at =
    let d = c.is_sound in
    let head : current ≡ s.shared.head =
      subst (Stands s.shared d.owner d.last i) at (d.stands i lt) in
    subst
      (λ a. (w : ℕ) × ((x : ℕ) × (s.shared.heap a ≡ some (record { value = w; next = some x }))))
      (sym head)
      (first-node s.shared.heap d.owner s.shared.head d.last d.front d.rest
        (omega (arith, c.afforded, le-tally needs n s.pc i lt, ap needs at, IsSound-length n s d))
        d.chain)

pub keeps-IsPaid :
    (malloc : Heap → ℕ → ℕ)
    → ((h : Heap) (top : ℕ) → ((a : ℕ) → top ≤ a → h a ≡ none) → h (malloc h top) ≡ none)
    → (n : ℕ) (f : ℕ → ℕ) (links takes i : ℕ) (s : System Shared Pc) (m : Shared) (p : Pc) → i < n
    → step malloc s.shared (s.pc i) ≡ some (m, p)
    → IsPaid n f links takes s
    → IsPaid n f links takes (record { shared = m; pc = put s.pc i p })
keeps-IsPaid malloc fresh n f links takes i s m p lt e c =
    let d = keeps-IsSound malloc fresh n i s m p lt e c.is_sound in
    let here =
      step-not-lost malloc s.shared m (s.pc i) p e
        (λ k. not-crashed n _ d i lt (put-same s.pc i p ∙ k))
        (reads-node n i f links takes s c lt) in
    let (a, (b, g)) = step-counts malloc s.shared m (s.pc i) p e here f in
    record {
      is_sound = d;
      linked = omega (arith, c.linked, a, tally-put (to_link f) n s.pc i p lt);
      removed = omega (arith, c.removed, b, tally-put to_take n s.pc i p lt);
      afforded = omega (arith, c.afforded, g, tally-put needs n s.pc i p lt);
      found =
          put-all (λ j q. j < n → is_lost q ≡ false) s.pc i p (λ _. here) (λ j ne k. c.found j k);
    }
