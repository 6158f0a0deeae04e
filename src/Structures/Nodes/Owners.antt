-- ===== src/Structures/Nodes/Owners.antt =====
-- Who may touch a node: every node that is allocated has one owner.
use c_advanced_problems.Prelude.{
  ℕ, ◌<◌, ◌≡◌, ◌≢◌, refl, ◌∙◌, subst, none, some, List, [], ◌∷◌, ◌++◌, length, arith,
}
use c_advanced_problems.Prelude.Tally.{put}
use c_advanced_problems.Structures.Nodes.{Heap, Chain}
use c_advanced_problems.Structures.Nodes.Chains.{Chain-elsewhere}

-- Not allocated, on the queue, or of one thread.
pub data Owner : Type 0 where
  nobody : Owner
  queued : Owner
  thread : (i : ℕ) → Owner

abbrev pub Owners : Type 0
Owners = ℕ → Owner

-- A chain of nodes of the queue.
abbrev pub Queued : Heap → Owners → (p t v : ℕ) → List ℕ → Type 0
Queued h o p t v [] = (p ≡ t) × ((o p ≡ queued) × (h p ≡ some (record { value = v; next = none })))
Queued h o p t v (x ∷ xs) =
    (p' : ℕ) × ((o p ≡ queued)
      × ((h p ≡ some (record { value = v; next = some p' })) × Queued h o p' t x xs))

pub Queued-Chain :
    (h : Heap) (o : Owners) (p t v : ℕ) (xs : List ℕ) → Queued h o p t v xs → Chain h p t v xs
Queued-Chain h o p t v [] (same, (w, e)) = (same, e)
Queued-Chain h o p t v (x ∷ xs) (p', (w, (e, c))) = (p', e, Queued-Chain h o p' t x xs c)

-- The last node.
pub Queued-last :
    (h : Heap) (o : Owners) (p t v : ℕ) (xs : List ℕ)
    → Queued h o p t v xs
    → (o t ≡ queued) × ((w : ℕ) × (h t ≡ some (record { value = w; next = none })))
Queued-last h o p t v [] (same, (w, e)) = (
  subst (λ r. o r ≡ queued) same w,
  (v, subst (λ r. h r ≡ some (record { value = v; next = none })) same e),
)
Queued-last h o p t v (x ∷ xs) (p', (w, (e, c))) = Queued-last h o p' t x xs c

-- What is done elsewhere.
pub Queued-frame :
    (h h' : Heap) (o o' : Owners) (p t v : ℕ) (xs : List ℕ)
    → ((a : ℕ) → o a ≡ queued → (h' a ≡ h a) × (o' a ≡ queued))
    → Queued h o p t v xs
    → Queued h' o' p t v xs
Queued-frame h h' o o' p t v [] f (same, (w, e)) = let (k, w') = f p w in (same, (w', k ∙ e))
Queued-frame h h' o o' p t v (x ∷ xs) f (p', (w, (e, c))) =
    let (k, w') = f p w in (p', (w', (k ∙ e, Queued-frame h h' o o' p' t x xs f c)))

-- `put` here and elsewhere.
pub put-same {ℓ} : {A : Type ℓ} (f : ℕ → A) (q : ℕ) (a : A) → put f q a q ≡ a
put-same f q a = ground arith

pub put-apart {ℓ} : {A : Type ℓ} (f : ℕ → A) (q p : ℕ) (a : A) → q ≢ p → put f q a p ≡ f p
put-apart f q p a ne = ground (arith, ne)

-- A node of a thread is linked behind the last one.
pub Queued-link :
    (h : Heap) (o : Owners) (p t v w q x i : ℕ) (xs : List ℕ)
    → h t ≡ some (record { value = w; next = none })
    → h q ≡ some (record { value = x; next = none })
    → o q ≡ thread i
    → Queued h o p t v xs
    → Queued
        (put h t (some (record { value = w; next = some q })))
        (put o q queued)
        p
        q
        v
        (xs ++ x ∷ [])
Queued-link h o p t v w q x i [] e f mine (same, (k, g)) =
    let apart : q ≢ p = λ s. cc in
    (
      q,
      (
        put-apart o q p queued apart ∙ k,
        (
          ground (arith, e, g, same),
          (refl, (put-same o q queued, put-apart h t q _ (λ s. cc) ∙ f)),
        ),
      ),
    )
Queued-link h o p t v w q x i (y ∷ ys) e f mine (p', (k, (g, c))) = (
  p',
  (
    put-apart o q p queued (λ s. cc) ∙ k,
    (put-apart h t p _ (λ s. cc) ∙ g, Queued-link h o p' t y w q x i ys e f mine c),
  ),
)

Queued-elsewhere :
    (h : Heap) (o : Owners) (b : Owner) (q p t v w : ℕ) (xs ys : List ℕ)
    → Chain h q t w ys
    → length xs < length ys
    → Queued h o p t v xs
    → Queued h (put o q b) p t v xs
Queued-elsewhere h o b q p t v w [] ys d lt (same, (k, e)) =
    (same, (put-apart o q p b (Chain-elsewhere h q p t v w [] ys d lt (same, e)) ∙ k, e))
Queued-elsewhere h o b q p t v w (x ∷ xs) ys d lt (p', (k, (e, c))) = (
  p',
  (
    put-apart o q p b
          (Chain-elsewhere h q p t v w (x ∷ xs) ys d lt (p', e, Queued-Chain h o p' t x xs c))
        ∙ k,
    (e, Queued-elsewhere h o b q p' t x w xs ys d (omega (arith, lt)) c),
  ),
)

-- The first node is given to a thread.
pub Queued-behind :
    (h : Heap) (o : Owners) (b : Owner) (p p' t v x : ℕ) (xs : List ℕ)
    → h p ≡ some (record { value = v; next = some p' })
    → Queued h o p t v (x ∷ xs)
    → Queued h (put o p b) p' t x xs
Queued-behind h o b p p' t v x xs e (q, (k, (g, c))) =
    let same : q ≡ p' = cc in
    subst (λ r. Queued h (put o p b) r t x xs) same
      (Queued-elsewhere h o b p q t x v xs (x ∷ xs) (q, g, Queued-Chain h o q t x xs c)
        (omega arith) c)
