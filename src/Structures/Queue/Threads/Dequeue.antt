-- ===== src/Structures/Queue/Threads/Dequeue.antt =====
-- The statements of `dequeue` keep the queue sound.
use c_advanced_problems.Prelude.{
  ℕ, ◌+◌, ◌<◌, ◌≡◌, ◌≢◌, refl, sym, ◌∙◌, ap, subst, none, some, List, [], ◌∷◌, ◌++◌, arith,
  length-append,
}
use mathlib.Core.List.{append_assoc}
use c_advanced_problems.Prelude.Tally.{put}
use c_advanced_problems.Structures.Nodes.{Heap}
use c_advanced_problems.Structures.Nodes.Owners.{
  nobody, queued, thread, Queued, Queued-frame, Queued-behind, put-same, put-apart,
}
use c_advanced_problems.Structures.Queue.Threads.Invariant.{Stands, IsSound, sound}
use c_advanced_problems.Structures.Queue.Threads.{
  Shared, Task, Pc, next_task, read_next, unlock_empty, move_head, unlock_head, release, step,
}
use c_advanced_problems.Sync.Interleaving.{System}
use c_advanced_problems.Structures.Queue.Threads.Locks.{After, locks}

empty-step :
    (malloc : Heap → ℕ → ℕ) (m : Shared) (current v : ℕ) (tasks : List Task)
    → m.heap current ≡ some (record { value = v; next = none })
    → step malloc m (read_next current tasks) ≡ some (m, unlock_empty tasks)
unfolding step
empty-step malloc m current v tasks e = rw (e, step) refl

next-step :
    (malloc : Heap → ℕ → ℕ) (m : Shared) (current v q : ℕ) (tasks : List Task)
    → m.heap current ≡ some (record { value = v; next = some q })
    → step malloc m (read_next current tasks) ≡ some (m, move_head current q tasks)
unfolding step
next-step malloc m current v q tasks e = rw (e, step) refl

module _ (n i : ℕ) (s : System Shared Pc) (c : IsSound n s) (lt : i < n) where
  -- dequeue: free(current)
  pub releases :
      (malloc : Heap → ℕ → ℕ) (current : ℕ) (tasks : List Task)
      → s.pc i ≡ release current tasks
      → After n i s (step malloc s.shared (release current tasks))
  unfolding step
  releases malloc current tasks at =
      let m = s.shared in
      let mine : c.owner current ≡ thread i =
        subst (Stands m c.owner c.last i) at (c.stands i lt) in
      let heap' = put m.heap current none in
      let o' = put c.owner current nobody in
      let elsewhere : (b : ℕ) → c.owner b ≢ thread i → (heap' b ≡ m.heap b) × (o' b ≡ c.owner b) =
        λ b ne.
          let apart : current ≢ b = λ e. ne (sym (ap c.owner e) ∙ mine) in
          (put-apart m.heap current b none apart, put-apart c.owner current b nobody apart) in
      sound n i s (release current tasks) (record m { heap = heap' }) (next_task tasks) c o' c.last
        c.front c.gone c.rest lt at refl refl c.settled (λ b e. ground (arith, c.above b, e))
        (λ b e. ground (arith, c.live b, e))
        (Queued-frame m.heap heap' c.owner o' m.head c.last c.front c.rest
          (λ b w. let (k, l) = elsewhere b (λ e. cc) in (k, l ∙ w)) c.chain)
        c.parts c.count tt
        (record {
          own = λ j b ne w. let (k, l) = elsewhere b (λ e. ne (cc)) in (l ∙ w, k);
          at_tail = λ e. (refl, refl);
          at_head = λ e. (refl, λ v x k. let (l, o) = elsewhere m.head (heads) in l ∙ k);
        })
    where
      first :
          (xs : List ℕ) (p : ℕ)
          → Queued s.shared.heap c.owner p c.last c.front xs
          → c.owner p ≡ queued
      first [] p (same, (w, e)) = w
      first (x ∷ xs) p (p', (w, r)) = w

      heads : c.owner s.shared.head ≢ thread i
      heads e = let w = first c.rest s.shared.head c.chain in cc

  -- dequeue: q->head = newHead
  pub moves_head :
      (malloc : Heap → ℕ → ℕ) (current new_head : ℕ) (tasks : List Task) (rest : List ℕ)
      → s.pc i ≡ move_head current new_head tasks
      → c.rest ≡ rest
      → After n i s (step malloc s.shared (move_head current new_head tasks))
  unfolding step
  moves_head malloc current new_head tasks [] at same =
      let (head, (v, full)) = subst (Stands s.shared c.owner c.last i) at (c.stands i lt) in
      let (k, (w, e)) =
        subst (Queued s.shared.heap c.owner s.shared.head c.last c.front) same c.chain in
      absurd (cc)
  moves_head malloc current new_head tasks (x ∷ xs) at same =
      let m = s.shared in
      let (head, (v, full)) = subst (Stands m c.owner c.last i) at (c.stands i lt) in
      let (q, (w, (e, r))) = subst (Queued m.heap c.owner m.head c.last c.front) same c.chain in
      let here : m.heap m.head ≡ some (record { value = c.front; next = some new_head }) = cc in
      let o' = put c.owner m.head (thread i) in
      let m' : Shared = record m { head = new_head; taken = m.taken + 1 } in
      sound n i s (move_head current new_head tasks) m' (unlock_head current tasks) c o' c.last x
        (c.gone ++ x ∷ []) xs lt at refl refl c.settled c.above
        (λ b k. ground (arith, c.live b, k, here))
        (Queued-behind m.heap c.owner (thread i) m.head new_head c.last c.front x xs here
          (q, (w, (e, r))))
        (c.parts ∙ ap (λ l. c.gone ++ l) same ∙ sym (append_assoc c.gone (x ∷ []) xs))
        (length-append c.gone (x ∷ []) ∙ ap (λ (k : ℕ). k + 1) c.count)
        (ap o' head ∙ put-same c.owner m.head (thread i))
        (record {
          own = λ j b ne k. (put-apart c.owner m.head b (thread i) (λ l. cc) ∙ k, refl);
          at_tail = λ k. (refl, refl);
          at_head = λ k. absurd (omega (arith, k));
        })

  -- dequeue: newHead = current->next, and its test
  pub reads_next :
      (malloc : Heap → ℕ → ℕ) (current : ℕ) (tasks : List Task) (rest : List ℕ)
      → s.pc i ≡ read_next current tasks
      → c.rest ≡ rest
      → After n i s (step malloc s.shared (read_next current tasks))
  reads_next malloc current tasks [] at same =
      let head = subst (Stands s.shared c.owner c.last i) at (c.stands i lt) in
      let (k, (w, e)) =
        subst (Queued s.shared.heap c.owner s.shared.head c.last c.front) same c.chain in
      subst (After n i s)
        (sym (empty-step malloc s.shared current c.front tasks (ap s.shared.heap head ∙ e)))
        (locks n i s c lt (read_next current tasks) (unlock_empty tasks) s.shared.headlock
          s.shared.taillock at refl refl c.settled tt)
  reads_next malloc current tasks (x ∷ xs) at same =
      let head = subst (Stands s.shared c.owner c.last i) at (c.stands i lt) in
      let (q, (w, (e, r))) =
        subst (Queued s.shared.heap c.owner s.shared.head c.last c.front) same c.chain in
      let full = ap s.shared.heap head ∙ e in
      subst (After n i s) (sym (next-step malloc s.shared current c.front q tasks full)) (
        locks n i s c lt (read_next current tasks) (move_head current q tasks) s.shared.headlock
          s.shared.taillock at refl refl c.settled (head, (c.front, full)))
