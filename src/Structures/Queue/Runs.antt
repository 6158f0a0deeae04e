-- ===== src/Structures/Queue/Runs.antt =====
-- The queue against a list of values, over any operations.
use c_advanced_problems.Prelude.{
  ℕ, ◌≡◌, refl, subst, ap, ◌∙◌, Option, none, some, List, [], ◌∷◌, ◌++◌,
}
use c_advanced_problems.Structures.Nodes.{Heap}
use c_advanced_problems.Structures.Queue.{Queue, init_queue, enqueue, dequeue}
use c_advanced_problems.Structures.Queue.Order.{
  Holds, tail_of, init_queue-Holds, enqueue-Holds, dequeue-Holds,
}

-- An `enqueue`, with the address that `malloc` returns, or a `dequeue`.
pub data Operation : Type 0 where
  put_value : (place value : ℕ) → Operation
  take_value : Operation

abbrev pub apply : Operation → Queue → Option Queue
apply (put_value place value) q = enqueue q place value
apply take_value q = dequeue q

-- `none` once a bad pointer is followed.
pub apply_all : List Operation → Queue → Option Queue
apply_all [] q = some q
apply_all (o ∷ os) q = elim (apply o q) [ none ↦ none | some q' ↦ apply_all os q' ]

-- The same operations on the list of the values, first in, first out.
abbrev pub fifo : List Operation → List ℕ → List ℕ
fifo [] xs = xs
fifo (put_value place value ∷ os) xs = fifo os (xs ++ value ∷ [])
fifo (take_value ∷ os) xs = fifo os (tail_of xs)

-- `malloc` returns an address where nothing is: it may be one that has been freed.
abbrev pub IsFree : Operation → Queue → Type 0
IsFree (put_value place value) q = q.heap place ≡ none
IsFree take_value q = Unit

-- Of the queue behind an operation, if there is one.
abbrev pub After : (Queue → Type 0) → Option Queue → Type 0
After P none = Unit
After P (some q) = P q

abbrev pub AreFree : List Operation → Queue → Type 0
AreFree [] q = Unit
AreFree (o ∷ os) q = IsFree o q × After (AreFree os) (apply o q)

apply_all-step :
    (o : Operation) (os : List Operation) (q q' : Queue)
    → apply o q ≡ some q'
    → apply_all (o ∷ os) q ≡ apply_all os q'
unfolding apply_all
apply_all-step o os q q' e = ap (λ r. elim r [ none ↦ none | some v ↦ apply_all os v ]) e

next-AreFree :
    (os : List Operation) {r : Option Queue} {q : Queue}
    → r ≡ some q
    → After (AreFree os) r
    → AreFree os q
next-AreFree os e later = subst (After (AreFree os)) e later

apply_all-Holds :
    (os : List Operation) (q : Queue) (xs : List ℕ)
    → AreFree os q
    → Holds q xs
    → (q' : Queue) × (apply_all os q ≡ some q') × Holds q' (fifo os xs)
unfolding apply_all
apply_all-Holds [] q xs free h = (q, refl, h)
apply_all-Holds (put_value place value ∷ os) q xs (free, later) h =
    let (q₁, e, h₁) = enqueue-Holds q place value xs free h in
    let (q₂, e', h₂) = apply_all-Holds os q₁ (xs ++ value ∷ []) (next-AreFree os e later) h₁ in
    (q₂, apply_all-step (put_value place value) os q q₁ e ∙ e', h₂)
apply_all-Holds (take_value ∷ os) q xs (free, later) h =
    let (q₁, e, h₁) = dequeue-Holds q xs h in
    let (q₂, e', h₂) = apply_all-Holds os q₁ (tail_of xs) (next-AreFree os e later) h₁ in
    (q₂, apply_all-step take_value os q q₁ e ∙ e', h₂)

-- From a fresh queue, where `malloc` returns addresses at which nothing is, any `enqueue`s and `dequeue`s
-- follow no bad pointer, and the queue holds what a list holds that is filled behind and emptied in
-- front; a `dequeue` of the empty queue changes nothing.
apply_all-fifo :
    (heap : Heap) (place : ℕ) (os : List Operation)
    → AreFree os (init_queue heap place)
    → (q : Queue) × (apply_all os (init_queue heap place) ≡ some q) × Holds q (fifo os [])
apply_all-fifo heap place os free =
    apply_all-Holds os (init_queue heap place) [] free (init_queue-Holds heap place)
