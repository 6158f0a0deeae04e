-- ===== src/Structures/LinkedList/Threads/Link.antt =====
-- The statement of `addToList` that links a node keeps the list sound.
use c_advanced_problems.Prelude.{
  ℕ, ◌+◌, ◌<◌, ◌≡◌, ◌≢◌, refl, sym, ◌∙◌, ap, subst, none, some, List, [], ◌∷◌, ◌++◌, length, arith,
  length-append, ℕ_discrete,
}
use c_advanced_problems.Prelude.Tally.{put}
use c_advanced_problems.Structures.Nodes.{Heap}
use c_advanced_problems.Structures.Nodes.Owners.{
  queued, thread, Owners, Queued, Queued-link, put-same, put-apart,
}
use c_advanced_problems.Structures.LinkedList.Threads.{Shared, Pc, link, unlock_last, step}
use c_advanced_problems.Structures.LinkedList.Threads.Invariant.{IsEnd, Stands, IsSound, sound}
use c_advanced_problems.Sync.Interleaving.{System}
use c_advanced_problems.Structures.LinkedList.Threads.Locks.{After}

link-step :
    (malloc : Heap → ℕ → ℕ) (m : Shared) (current node value w : ℕ) (values : List ℕ)
    → m.heap current ≡ some (record { value = w; next = none })
    → step malloc m (link current node value values)
      ≡ some (
        record m {
          heap = put m.heap current (some (record { value = w; next = some node }));
          added = m.added ++ value ∷ [];
        },
        unlock_last current values,
      )
unfolding step
link-step malloc m current node value w values e = rw (e, step) refl

put-at {ℓ} : {A : Type ℓ} (f : ℕ → A) (q p : ℕ) (a : A) → q ≡ p → put f q a p ≡ a
put-at f q p a same = ap (put f q a) (sym same) ∙ put-same f q a

-- Once a node is linked behind the last one, it is the last one.
linked-ends :
    (h : Heap) (o : Owners) (current node w last a : ℕ)
    → ((a : ℕ) → o a ≡ queued → IsEnd h a → a ≡ last)
    → current ≡ last
    → put o node queued a ≡ queued
    → IsEnd (put h current (some (record { value = w; next = some node }))) a
    → a ≡ node
linked-ends h o current node w last a ends final k (x, z) = elim (ℕ_discrete node a) [
  | yes here ↦ sym here
  | no apart ↦ elim (ℕ_discrete current a) [
    | yes before ↦
        let e = put-at h current a (some (record { value = w; next = some node })) before in
        absurd (cc)
    | no ne ↦ absurd (
        ne (
          final
          ∙ sym (
              ends a (sym (put-apart o node a queued apart) ∙ k)
                (x, sym (put-apart h current a _ ne) ∙ z))))
  ]
]

-- And each node still points to the next one.
linked-nexts :
    (h : Heap) (o : Owners) (place : ℕ → ℕ) (current node w v i a x b : ℕ)
    → ((a w b : ℕ)
        → o a ≡ queued
        → h a ≡ some (record { value = w; next = some b })
        → (o b ≡ queued) × (place b ≡ place a + 1))
    → current ≢ node
    → o node ≡ thread i
    → h node ≡ some (record { value = v; next = none })
    → put o node queued a ≡ queued
    → put h current (some (record { value = w; next = some node })) a
      ≡ some (record { value = x; next = some b })
    → (put o node queued b ≡ queued)
      × (put place node (place current + 1) b ≡ put place node (place current + 1) a + 1)
linked-nexts h o place current node w v i a x b nexts apart own full k z =
    elim (ℕ_discrete node a) [
      | yes here ↦
          let e =
            put-apart h current a (some (record { value = w; next = some node }))
              (λ s. apart (s ∙ sym here)) in
          absurd (cc)
      | no other ↦
          let there = put-apart place node a (place current + 1) other in
          elim (ℕ_discrete current a) [
            | yes before ↦
                let e = put-at h current a (some (record { value = w; next = some node })) before in
                let same : node ≡ b = cc in
                (
                  put-at o node b queued same,
                  put-at place node b (place current + 1) same
                      ∙ ap (λ (j : ℕ). place j + 1) before
                      ∙ ap (λ (j : ℕ). j + 1) (sym there),
                )
            | no ne ↦
                let (q, r) =
                  nexts a x b (sym (put-apart o node a queued other) ∙ k)
                    (sym (put-apart h current a _ ne) ∙ z) in
                let far : node ≢ b = λ s. cc in
                (
                  put-apart o node b queued far ∙ q,
                  put-apart place node b (place current + 1) far
                      ∙ r
                      ∙ ap (λ (j : ℕ). j + 1) (sym there),
                )
          ]
    ]

module _ (n i : ℕ) (s : System Shared Pc) (c : IsSound n s) (lt : i < n) where
  -- current->next = tmp, or newNode
  pub links :
      (malloc : Heap → ℕ → ℕ) (current node value : ℕ) (values : List ℕ)
      → s.pc i ≡ link current node value values
      → After n i s (step malloc s.shared (link current node value values))
  links malloc current node value values at =
      let m = s.shared in
      let (mine, ((w, e), (own, full))) =
        subst (Stands m.heap c.owner c.place i) at (c.stands i lt) in
      let ends : current ≡ c.last = c.ends current mine (w, e) in
      let apart : current ≢ node = λ same. cc in
      let heap' = put m.heap current (some (record { value = w; next = some node })) in
      let o' = put c.owner node queued in
      let place' = put c.place node (c.place current + 1) in
      let far : c.place current ≡ length m.added = ap c.place ends ∙ c.final in
      let grows = length-append m.added (value ∷ []) in
      let kept : (a : ℕ) → c.owner a ≡ queued → (o' a ≡ queued) × (place' a ≡ c.place a) = λ a k. (
        put-apart c.owner node a queued (λ same. cc) ∙ k,
        put-apart c.place node a _ (λ same. cc),
      ) in
      subst (After n i s) (sym (link-step malloc m current node value w values e)) (
        sound n i s (link current node value values)
          (record m { heap = heap'; added = m.added ++ value ∷ [] }) (unlock_last current values) c
          o' place' node lt at (λ a. refl) (λ a k. ground (arith, c.above a, k, e))
          (λ a k. ground (arith, c.live a, k, full))
          (subst
            (λ t.
              Queued (put m.heap t (some (record { value = w; next = some node }))) o' m.head node
                c.front (m.added ++ value ∷ []))
            (sym ends)
            (Queued-link m.heap c.owner m.head c.last c.front w node value i m.added
              (sym (ap m.heap ends) ∙ e) full own c.chain))
          (λ a k z. linked-ends m.heap c.owner current node w c.last a c.ends ends k z)
          (λ a x b k z.
            linked-nexts m.heap c.owner c.place current node w value i a x b c.nexts apart own full
              k z)
          (λ a k. ground (arith, c.places a, k, far, grows))
          (put-same c.place node (c.place current + 1) ∙ omega (arith, far, grows))
          (kept current mine).0
          (record {
            own = λ j b ne k. (
              put-apart c.owner node b queued (λ same. ne (cc)) ∙ k,
              put-apart m.heap current b _ (λ same. cc),
            );
            listed = kept;
            elsewhere = λ a k z. put-apart m.heap current a _ (ground (arith, z));
          }))
