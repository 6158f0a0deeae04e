-- ===== src/Structures/LinkedList/Append.antt =====
-- The nodes behind the dummy node as a list of values.
use c_advanced_problems.Prelude.{
  ℕ, zero, suc, ◌<◌, ◌≡◌, ◌≢◌, refl, ap, none, some, List, [], ◌∷◌, ◌++◌, length, arith,
}
use c_advanced_problems.Prelude.Tally.{put}
use c_advanced_problems.Structures.Nodes.{Heap, Chain, init_node}
use c_advanced_problems.Structures.Nodes.Chains.{
  Chain-put_fresh, Chain-put_last, Chain-last, put-here,
}
use c_advanced_problems.Structures.LinkedList.{NodeList, init_list, walk, insert_after, add_to_list}

-- Behind the dummy node there is one node for each value.
abbrev pub Holds : NodeList → List ℕ → Type 0
Holds list xs = (t : ℕ) × ((v : ℕ) × Chain list.heap list.head t v xs)

-- A fresh list is empty.
init_list-Holds : (heap : Heap) (place : ℕ) → Holds (init_list heap place) []
init_list-Holds heap place = (place, (0, (refl, put-here heap place _)))

-- With more fuel than there are values the loop stops, and at the last node.
walk-last :
    (fuel : ℕ) (h : Heap) (p t v : ℕ) (xs : List ℕ)
    → length xs < fuel
    → Chain h p t v xs
    → walk fuel h p ≡ some t
unfolding walk
walk-last zero h p t v xs lt c = absurd (omega arith)
walk-last (suc fuel) h p t v [] lt (same, e) = rw (e, walk) (ap some same)
walk-last (suc fuel) h p t v (x ∷ xs) lt (p', e, c) =
    rw (e, walk) (walk-last fuel h p' t x xs (omega arith) c)

insert_after-Holds :
    (list : NodeList) (t v place value : ℕ) (xs : List ℕ)
    → list.heap place ≡ none
    → Chain list.heap list.head t v xs
    → (list' : NodeList) × (insert_after list t place value none ≡ some list')
      × Holds list' (xs ++ value ∷ [])
unfolding insert_after
insert_after-Holds list t v place value xs fresh c =
    let (w, e) = Chain-last list.heap list.head t v xs c in
    let apart : t ≢ place = λ s. cc in
    let h : Heap = init_node list.heap place value none in
    let e' : h t ≡ some (record { value = w; next = none }) = ground (arith, apart, e) in
    (
      record list { heap = put h t (some (record { value = w; next = some place })) },
      rw (e', insert_after) refl,
      (
        place,
        (
          v,
          Chain-put_last h list.head t v w place value xs e' (put-here list.heap place _) apart
              (Chain-put_fresh list.heap place _ list.head t v xs fresh c),
        ),
      ),
    )

-- Where nothing is at the new address and the fuel exceeds the number of values, `addToList` ends its
-- loop, follows no bad pointer and puts its value behind the others.
add_to_list-Holds :
    (fuel : ℕ) (list : NodeList) (place value : ℕ) (xs : List ℕ)
    → length xs < fuel
    → list.heap place ≡ none
    → Holds list xs
    → (list' : NodeList) × (add_to_list fuel list place value ≡ some list')
      × Holds list' (xs ++ value ∷ [])
unfolding add_to_list
add_to_list-Holds fuel list place value [] lt fresh (t, (v, (same, e))) =
    let (list', f, k) = insert_after-Holds list list.head v place value [] fresh (refl, e) in
    (list', rw (e, add_to_list) f, k)
add_to_list-Holds fuel list place value (x ∷ xs) lt fresh (t, (v, (p', e, c))) =
    let (list', f, k) = insert_after-Holds list t v place value (x ∷ xs) fresh (p', e, c) in
    let (w, l) = Chain-last list.heap p' t x xs c in
    let stops = walk-last fuel list.heap list.head t v (x ∷ xs) lt (p', e, c) in
    (list', rw (e, stops, l, add_to_list) f, k)
