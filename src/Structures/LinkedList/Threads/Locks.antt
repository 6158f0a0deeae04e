-- ===== src/Structures/LinkedList/Threads/Locks.antt =====
-- The statements of `addToList` that touch the locks alone, and `initNode`.
use c_advanced_problems.Prelude.{
  ℕ, ◌+◌, ◌≤◌, ◌<◌, ◌≡◌, ◌≢◌, refl, sym, ◌∙◌, ap, Option, none, some, List, arith, if◌then◌else◌,
  Bool, true, false, ℕ_discrete,
}
use c_advanced_problems.Prelude.Tally.{put}
use c_advanced_problems.Structures.Nodes.{Heap}
use c_advanced_problems.Structures.Nodes.Owners.{
  nobody, queued, thread, Queued-frame, put-same, put-apart,
}
use c_advanced_problems.Structures.LinkedList.Threads.{Shared, Pc, link, new_node}
use c_advanced_problems.Structures.LinkedList.Threads.Invariant.{
  holds, IsEnd, Stands, IsSound, sound, not-held,
}
use c_advanced_problems.Sync.Interleaving.{System}

-- Soundness after what a step returned.
abbrev pub After : (n i : ℕ) (s : System Shared Pc) → Option (Shared × Pc) → Type 0
After n i s none = Unit
After n i s (some (m, p)) = IsSound n (record { shared = m; pc = put s.pc i p })

-- A step that waits at a taken lock.
pub After-guard :
    (n i : ℕ) (s : System Shared Pc) (b : Bool) (m : Shared) (p : Pc)
    → (b ≡ false → After n i s (some (m, p)))
    → After n i s (if b then none else some (m, p))
After-guard n i s true m p f = tt
After-guard n i s false m p f = f refl

module _ (n i : ℕ) (s : System Shared Pc) (c : IsSound n s) (lt : i < n) where
  -- A step that touches the locks alone.
  pub locks :
      (p p' : Pc) (l : ℕ → ℕ)
      → s.pc i ≡ p
      → ((a : ℕ) → l a + holds a p' ≡ s.shared.locks a + holds a p)
      → Stands s.shared.heap c.owner c.place i p'
      → After n i s (some (record s.shared { locks = l }, p'))
  locks p p' l at held st =
      sound n i s p (record s.shared { locks = l }) p' c c.owner c.place c.last lt at held c.above
        c.live c.chain c.ends c.nexts c.places c.final st
        (record {
          own = λ j a ne w. (w, refl);
          listed = λ a w. (w, refl);
          elsewhere = λ a w k. refl;
        })

  -- initNode
  pub allocates :
      (malloc : Heap → ℕ → ℕ) (p : Pc) (current value : ℕ) (values : List ℕ)
      → ((h : Heap) (top : ℕ) → ((a : ℕ) → top ≤ a → h a ≡ none) → h (malloc h top) ≡ none)
      → s.pc i ≡ p
      → c.owner current ≡ queued
      → IsEnd s.shared.heap current
      → ((a : ℕ)
          → holds a p ≡ holds a (link current (malloc s.shared.heap s.shared.top) value values))
      → After n i s (
          some (
            new_node s.shared (malloc s.shared.heap s.shared.top) value none,
            link current (malloc s.shared.heap s.shared.top) value values,
          ))
  allocates malloc p current value values fresh at mine (v, e) same =
      let m = s.shared in
      let a = malloc m.heap m.top in
      let empty : m.heap a ≡ none = fresh m.heap m.top c.above in
      let nobodys : c.owner a ≡ nobody = c.live a empty in
      let free : m.locks a ≡ 1 = not-held n s c a nobodys in
      let m' = new_node m a value none in
      let o' = put c.owner a (thread i) in
      let elsewhere : (b : ℕ) → c.owner b ≢ nobody → (m'.heap b ≡ m.heap b) × (o' b ≡ c.owner b) =
        λ b ne.
          let apart : a ≢ b = λ e. ne (sym (ap c.owner e) ∙ nobodys) in
          (put-apart m.heap a b _ apart, put-apart c.owner a b (thread i) apart) in
      let back : (b : ℕ) → o' b ≡ queued → (c.owner b ≡ queued) × (m'.heap b ≡ m.heap b) = λ b w.
        elim (ℕ_discrete a b) [
          | yes here ↦ absurd (ground (arith, w, here))
          | no ne ↦ (sym (put-apart c.owner a b (thread i) ne) ∙ w, put-apart m.heap a b _ ne)
        ] in
      let kept = λ (b : ℕ) (w : c.owner b ≡ queued). elsewhere b (λ k. cc) in
      sound n i s p m' (link current a value values) c o' c.place c.last lt at
        (λ b. ground (arith, free, same b)) (λ b k. ground (arith, c.above b, k))
        (λ b k. ground (arith, c.live b, k))
        (Queued-frame m.heap m'.heap c.owner o' m.head c.last c.front m.added
          (λ b w. let (k, l) = kept b w in (k, l ∙ w)) c.chain)
        (λ b w (x, k). let (w', l) = back b w in c.ends b w' (x, sym l ∙ k))
        (λ b x d w k.
          let (w', l) = back b w in
          let (q, r) = c.nexts b x d w' (sym l ∙ k) in let (y, z) = kept d q in (z ∙ q, r))
        (λ b w. let (w', l) = back b w in c.places b w') c.final
        (let (k, l) = kept current mine in
          (l ∙ mine, ((v, k ∙ e), (put-same c.owner a (thread i), put-same m.heap a _))))
        (record {
          own = λ j b ne w. let (k, l) = elsewhere b (λ e. cc) in (l ∙ w, k);
          listed = λ b w. let (k, l) = kept b w in (l ∙ w, refl);
          elsewhere = λ b w k. (kept b w).0;
        })
