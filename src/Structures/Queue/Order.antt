-- ===== src/Structures/Queue/Order.antt =====
-- The nodes behind the dummy node as a list of values.
use c_advanced_problems.Prelude.{ℕ, ◌≡◌, ◌≢◌, refl, none, some, List, [], ◌∷◌, ◌++◌, arith}
use c_advanced_problems.Prelude.Tally.{put}
use c_advanced_problems.Structures.Nodes.{Heap, Chain, init_node}
use c_advanced_problems.Structures.Nodes.Chains.{
  Chain-put_fresh, Chain-put_last, Chain-last, Chain-free, put-here,
}
use c_advanced_problems.Structures.Queue.{Queue, init_queue, enqueue, dequeue}

-- From `head` to `tail` there is the dummy node and one node for each value.
abbrev pub Holds : Queue → List ℕ → Type 0
Holds q xs = (v : ℕ) × Chain q.heap q.head q.tail v xs

-- What `dequeue` does to the values.
abbrev pub tail_of : List ℕ → List ℕ
tail_of [] = []
tail_of (x ∷ xs) = xs

-- A fresh queue is empty.
pub init_queue-Holds : (heap : Heap) (place : ℕ) → Holds (init_queue heap place) []
init_queue-Holds heap place = (0, (refl, put-here heap place _))

-- Where nothing is at the new address, `enqueue` follows no bad pointer and puts its value behind the
-- others.
pub enqueue-Holds :
    (q : Queue) (place value : ℕ) (xs : List ℕ)
    → q.heap place ≡ none
    → Holds q xs
    → (q' : Queue) × (enqueue q place value ≡ some q') × Holds q' (xs ++ value ∷ [])
unfolding enqueue
enqueue-Holds q place value xs fresh (v, c) =
    let (w, e) = Chain-last q.heap q.head q.tail v xs c in
    let apart : q.tail ≢ place = λ s. cc in
    let h : Heap = init_node q.heap place value none in
    let e' : h q.tail ≡ some (record { value = w; next = none }) = ground (arith, apart, e) in
    (
      record q {
        tail = place;
        heap = put h q.tail (some (record { value = w; next = some place }));
      },
      rw (e', enqueue) refl,
      (
        v,
        Chain-put_last h q.head q.tail v w place value xs e' (put-here q.heap place _) apart
            (Chain-put_fresh q.heap place _ q.head q.tail v xs fresh c),
      ),
    )

-- `dequeue` follows no bad pointer, removes the value in front and frees its node's predecessor; an
-- empty queue it leaves as it is.
pub dequeue-Holds :
    (q : Queue) (xs : List ℕ)
    → Holds q xs
    → (q' : Queue) × (dequeue q ≡ some q') × Holds q' (tail_of xs)
unfolding dequeue
dequeue-Holds q [] (v, (same, e)) = (q, rw (e, dequeue) refl, (v, (same, e)))
dequeue-Holds q (x ∷ xs) (v, (p', e, c)) = (
  record q { head = p'; heap = put q.heap q.head none },
  rw (e, dequeue) refl,
  (x, Chain-free q.heap q.head p' q.tail x v xs (x ∷ xs) (p', e, c) (omega arith) c),
)
