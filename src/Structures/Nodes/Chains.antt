-- ===== src/Structures/Nodes/Chains.antt =====
-- What a write to the heap does to a chain of nodes.
use c_advanced_problems.Prelude.{
  ℕ, suc, ◌<◌, ◌≡◌, ◌≢◌, refl, ap, ◌∙◌, subst, Option, none, some, List, [], ◌∷◌, ◌++◌, length,
  arith,
}
use c_advanced_problems.Prelude.Tally.{put}
use c_advanced_problems.Structures.Nodes.{Node, Heap, Chain}

put-other : (h : Heap) (q p : ℕ) (n : Option Node) → q ≢ p → put h q n p ≡ h p
put-other h q p n ne = ground (arith, ne)

pub put-here : (h : Heap) (q : ℕ) (n : Option Node) → put h q n q ≡ n
put-here h q n = ground arith

next_of : Option Node → Option ℕ
next_of none = none
next_of (some node) = node.next

-- Of two chains from one node to a last one, neither is longer.
Chain-length :
    (h : Heap) (p t s v w : ℕ) (xs ys : List ℕ)
    → Chain h p t v xs
    → Chain h p s w ys
    → length xs ≡ length ys
Chain-length h p t s v w [] [] c d = refl
Chain-length h p t s v w [] (y ∷ ys) (same, e) (p', f, d) = absurd cc
Chain-length h p t s v w (x ∷ xs) [] (p', f, c) (same, e) = absurd cc
Chain-length h p t s v w (x ∷ xs) (y ∷ ys) (p', e, c) (q', f, d) =
    let same : p' ≡ q' = cc in
    ap suc (Chain-length h q' t s x y xs ys (subst (λ r. Chain h r t x xs) same c) d)

-- A write where there was nothing.
pub Chain-put_fresh :
    (h : Heap) (q : ℕ) (n : Option Node) (p t v : ℕ) (xs : List ℕ)
    → h q ≡ none
    → Chain h p t v xs
    → Chain (put h q n) p t v xs
Chain-put_fresh h q n p t v [] fresh (same, e) = (same, put-other h q p n (λ s. cc) ∙ e)
Chain-put_fresh h q n p t v (x ∷ xs) fresh (p', e, c) =
    (p', put-other h q p n (λ s. cc) ∙ e, Chain-put_fresh h q n p' t x xs fresh c)

-- The last node of a chain.
pub Chain-last :
    (h : Heap) (p t v : ℕ) (xs : List ℕ)
    → Chain h p t v xs
    → (w : ℕ) × (h t ≡ some (record { value = w; next = none }))
Chain-last h p t v [] (same, e) =
    (v, subst (λ r. h r ≡ some (record { value = v; next = none })) same e)
Chain-last h p t v (x ∷ xs) (p', e, c) = Chain-last h p' t x xs c

-- The last node of a chain is made to point to another last node.
pub Chain-put_last :
    (h : Heap) (p t v w q x : ℕ) (xs : List ℕ)
    → h t ≡ some (record { value = w; next = none })
    → h q ≡ some (record { value = x; next = none })
    → t ≢ q
    → Chain h p t v xs
    → Chain (put h t (some (record { value = w; next = some q }))) p q v (xs ++ x ∷ [])
Chain-put_last h p t v w q x [] e f ne (same, g) = (
  q,
  ground (arith, e, g, same),
  (refl, put-other h t q (some (record { value = w; next = some q })) ne ∙ f),
)
Chain-put_last h p t v w q x (y ∷ ys) e f ne (p', g, c) = (
  p',
  put-other h t p (some (record { value = w; next = some q })) (λ s. cc) ∙ g,
  Chain-put_last h p' t y w q x ys e f ne c,
)

pub Chain-elsewhere :
    (h : Heap) (q p t v w : ℕ) (xs ys : List ℕ)
    → Chain h q t w ys
    → length xs < length ys
    → Chain h p t v xs
    → q ≢ p
Chain-elsewhere h q p t v w xs ys d lt c same =
    omega (arith, lt, Chain-length h p t t v w xs ys c (subst (λ r. Chain h r t w ys) same d))

-- A node that starts a longer chain is not on this one.
pub Chain-free :
    (h : Heap) (q p t v w : ℕ) (xs ys : List ℕ)
    → Chain h q t w ys
    → length xs < length ys
    → Chain h p t v xs
    → Chain (put h q none) p t v xs
Chain-free h q p t v w [] ys d lt (same, e) =
    (same, put-other h q p none (Chain-elsewhere h q p t v w [] ys d lt (same, e)) ∙ e)
Chain-free h q p t v w (x ∷ xs) ys d lt (p', e, c) = (
  p',
  put-other h q p none (Chain-elsewhere h q p t v w (x ∷ xs) ys d lt (p', e, c)) ∙ e,
  Chain-free h q p' t x w xs ys d (omega arith) c,
)
