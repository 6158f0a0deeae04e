-- ===== src/Structures/Nodes.antt =====
-- The `node` of `Multithreaded Datastructures/queue.c` and `linked-list.c`, in a heap. A pointer is an
-- address, and NULL is `none`. `malloc` is not modelled: an operation that allocates is given the
-- address that `malloc` returned, and a theorem about it asks that nothing was there.
pub mod Chains
pub mod Owners
use c_advanced_problems.Prelude.{ℕ, ◌+◌, ◌≡◌, ltb, if◌then◌else◌, Option, none, some, List, [], ◌∷◌}
use c_advanced_problems.Prelude.Tally.{put}

pub record Node : Type 0 where
  pub value : ℕ
  pub next : Option ℕ

abbrev pub Heap : Type 0
Heap = ℕ → Option Node

-- `initNode`, with `place` what `malloc` returned.
abbrev pub init_node : Heap → (place : ℕ) → (value : ℕ) → (next : Option ℕ) → Heap
init_node h place value next = put h place (some (record { value = value; next = next }))

-- `place->next = next`; `none` where there is no node.
abbrev pub set_next : Heap → (place : ℕ) → (next : Option ℕ) → Option Heap
set_next h place next = elim (h place) [
  | none ↦ none
  | some node ↦ some (put h place (some (record node { next = next })))
]

-- From `p` on there are nodes with the values `v ∷ xs`, of which the last one is `t`.
abbrev pub Chain : Heap → (p t v : ℕ) → List ℕ → Type 0
Chain h p t v [] = (p ≡ t) × (h p ≡ some (record { value = v; next = none }))
Chain h p t v (x ∷ xs) =
    (p' : ℕ) × (h p ≡ some (record { value = v; next = some p' })) × Chain h p' t x xs

-- The first address behind all in use, once `place` is in use too.
abbrev pub grown : (top place : ℕ) → ℕ
grown top place = if ltb place top then top else place + 1
