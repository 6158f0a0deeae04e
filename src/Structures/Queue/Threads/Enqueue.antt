-- ===== src/Structures/Queue/Threads/Enqueue.antt =====
-- The statements of `enqueue` keep the queue sound.
use c_advanced_problems.Prelude.{
  ℕ, ◌≤◌, ◌<◌, ◌≡◌, ◌≢◌, refl, sym, ◌∙◌, ap, subst, none, some, List, [], ◌∷◌, ◌++◌, arith,
}
use mathlib.Core.List.{append_assoc}
use c_advanced_problems.Prelude.Tally.{put, le-tally}
use c_advanced_problems.Structures.Nodes.{grown, Heap, init_node}
use c_advanced_problems.Structures.Nodes.Owners.{
  nobody, queued, thread, Queued, Queued-last, Queued-frame, Queued-link, put-same, put-apart,
}
use c_advanced_problems.Structures.Queue.Threads.Invariant.{holds_tail, Stands, IsSound, sound}
use c_advanced_problems.Structures.Queue.Threads.{
  Shared, Task, enqueue_of, Pc, next_task, lock_tail, link, move_tail, unlock_tail, step,
}
use c_advanced_problems.Sync.Interleaving.{System}
use c_advanced_problems.Structures.Queue.Threads.Locks.{After}

link-step :
    (malloc : Heap → ℕ → ℕ) (m : Shared) (node value w : ℕ) (tasks : List Task)
    → m.heap m.tail ≡ some (record { value = w; next = none })
    → step malloc m (link node value tasks)
      ≡ some (
        record m {
          heap = put m.heap m.tail (some (record { value = w; next = some node }));
          linked = m.linked ++ value ∷ [];
        },
        move_tail node tasks,
      )
unfolding step
link-step malloc m node value w tasks e = rw (e, step) refl

module _ (n i : ℕ) (s : System Shared Pc) (c : IsSound n s) (lt : i < n) where
  -- enqueue: initNode
  pub allocates :
      (malloc : Heap → ℕ → ℕ) (value : ℕ) (tasks : List Task)
      → ((h : Heap) (top : ℕ) → ((a : ℕ) → top ≤ a → h a ≡ none) → h (malloc h top) ≡ none)
      → s.pc i ≡ next_task (enqueue_of value ∷ tasks)
      → After n i s (step malloc s.shared (next_task (enqueue_of value ∷ tasks)))
  unfolding step
  allocates malloc value tasks fresh at =
      let m = s.shared in
      let a = malloc m.heap m.top in
      let empty : m.heap a ≡ none = fresh m.heap m.top c.above in
      let nobodys : c.owner a ≡ nobody = c.live a empty in
      let heap' = init_node m.heap a value none in
      let o' = put c.owner a (thread i) in
      let elsewhere : (b : ℕ) → c.owner b ≢ nobody → (heap' b ≡ m.heap b) × (o' b ≡ c.owner b) =
        λ b ne.
          let apart : a ≢ b = λ e. ne (sym (ap c.owner e) ∙ nobodys) in
          (put-apart m.heap a b _ apart, put-apart c.owner a b (thread i) apart) in
      sound n i s (next_task (enqueue_of value ∷ tasks))
        (record m { heap = heap'; top = grown m.top a }) (lock_tail a value tasks) c o' c.last
        c.front c.gone c.rest lt at refl refl c.settled (λ b e. ground (arith, c.above b, e))
        (λ b e. ground (arith, c.live b, e))
        (Queued-frame m.heap heap' c.owner o' m.head c.last c.front c.rest
          (λ b w. let (k, l) = elsewhere b (λ e. cc) in (k, l ∙ w)) c.chain)
        c.parts c.count (put-same c.owner a (thread i), put-same m.heap a _)
        (record {
          own = λ j b ne w. let (k, l) = elsewhere b (λ e. cc) in (l ∙ w, k);
          at_tail = λ e. (refl, refl);
          at_head = λ e. (refl, λ v x k. put-apart m.heap a m.head _ (λ same. cc) ∙ k);
        })

  -- enqueue: q->tail->next = tmp
  pub links :
      (malloc : Heap → ℕ → ℕ) (node value : ℕ) (tasks : List Task)
      → s.pc i ≡ link node value tasks
      → After n i s (step malloc s.shared (link node value tasks))
  unfolding step
  links malloc node value tasks at =
      let m = s.shared in
      let (at_last, (mine, full)) = subst (Stands m c.owner c.last i) at (c.stands i lt) in
      let (lasts, (w, ends)) = Queued-last m.heap c.owner m.head c.last c.front c.rest c.chain in
      let e : m.heap m.tail ≡ some (record { value = w; next = none }) = ap m.heap at_last ∙ ends in
      let tails : c.owner m.tail ≡ queued = ap c.owner at_last ∙ lasts in
      let heap' = put m.heap m.tail (some (record { value = w; next = some node })) in
      let o' = put c.owner node queued in
      let m' : Shared = record m { heap = heap'; linked = m.linked ++ value ∷ [] } in
      subst (After n i s) (sym (link-step malloc m node value w tasks e)) (
        sound n i s (link node value tasks) m' (move_tail node tasks) c o' node c.front c.gone
          (c.rest ++ value ∷ []) lt at refl refl (λ free. absurd (omega (arith, free, held)))
          (λ b k. ground (arith, c.above b, k, e)) (λ b k. ground (arith, c.live b, k, full))
          (subst
            (λ t.
              Queued (put m.heap t (some (record { value = w; next = some node }))) o' m.head node
                c.front (c.rest ++ value ∷ []))
            (sym at_last)
            (Queued-link m.heap c.owner m.head c.last c.front w node value i c.rest ends full mine
              c.chain))
          (ap (λ l. l ++ value ∷ []) c.parts ∙ append_assoc c.gone c.rest (value ∷ [])) c.count refl
          (record {
            own = λ j b ne k. (
              put-apart c.owner node b queued (λ same. ne (cc)) ∙ k,
              put-apart m.heap m.tail b _ (λ same. cc),
            );
            at_tail = λ k. absurd (omega (arith, k));
            at_head = λ k. (refl, λ v x l. put-apart m.heap m.tail m.head _ (λ same. cc) ∙ l);
          }))
    where
      held : s.shared.taillock ≡ 0
      held = omega (arith, c.tail_held, le-tally holds_tail n s.pc i lt, ap holds_tail at)

  -- enqueue: q->tail = tmp
  pub moves_tail :
      (malloc : Heap → ℕ → ℕ) (node : ℕ) (tasks : List Task)
      → s.pc i ≡ move_tail node tasks
      → After n i s (step malloc s.shared (move_tail node tasks))
  unfolding step
  moves_tail malloc node tasks at =
      let same : c.last ≡ node = subst (Stands s.shared c.owner c.last i) at (c.stands i lt) in
      sound n i s (move_tail node tasks) (record s.shared { tail = node }) (unlock_tail tasks) c
        c.owner c.last c.front c.gone c.rest lt at refl refl (λ free. sym same) c.above c.live
        c.chain c.parts c.count (sym same)
        (record {
          own = λ j b ne k. (k, refl);
          at_tail = λ k. absurd (omega (arith, k));
          at_head = λ k. (refl, λ v x l. l);
        })
