-- ===== src/Driver/HelloCounted/Session.antt =====
-- Open files of hello_counted.
use c_advanced_problems.Prelude.{ℕ, ◌<◌, ◌≡◌, ◌≢◌, refl, Option, none, some, List, [], ◌∷◌, arith}
use c_advanced_problems.Prelude.Tally.{put}
use c_advanced_problems.Driver.Kernel.{Status, ok}
use c_advanced_problems.Driver.HelloCounted.{State, Step, driver_open, driver_close, read_hello}

-- The reads of one open file, one for each buffer size, each at the position that the last one left.
abbrev pub reads : (ℕ → ℕ) → List ℕ → (offset : ℕ) → Step ℕ
reads copy [] offset s = some (s, offset)
reads copy (count ∷ counts) offset s = elim (read_hello copy count offset s) [
  | none ↦ none
  | some (s', r) ↦ reads copy counts r.offset s'
]

-- The block of the counter, `p`, is allocated and holds the file position. Some 58 bytes at most are copied at a position below 58.
abbrev pub IsTracked : State → ℕ → ℕ → Type 0
IsTracked s p offset = (s.counted ≡ p) × (s.block p ≡ some offset) × (offset < 116)

abbrev finish : Option (State × ℕ) → Option (State × Status)
finish none = none
finish (some (s, offset)) = driver_close s

-- One open file at a time: open, any reads, close.
abbrev pub session : (ℕ → ℕ) → (fresh : Option ℕ) → List ℕ → Step Status
session copy fresh counts s = elim (driver_open fresh s) [
  | none ↦ none
  | some (s₁, r) ↦ finish (reads copy counts 0 s₁)
]

-- Two calls of `driver_open`, and two of `driver_close`.
abbrev pub open_two : (p q : ℕ) → Step Status
open_two p q s = elim (driver_open (some p) s) [
  | none ↦ none
  | some (s₁, r) ↦ driver_open (some q) s₁
]

abbrev pub close_two : Step Status
close_two s = elim (driver_close s) [ none ↦ none | some (s₁, r) ↦ driver_close s₁ ]

-- Two files open at once: the second `driver_open` overwrites the pointer to the first block, so
-- closing both files releases the second block twice, and one close leaves the first one allocated.
pub open_two-close_two :
    (p q : ℕ) (s : State)
    → p ≢ q
    → (s₂ : State) × (s₃ : State) × (open_two p q s ≡ some (s₂, ok 0))
      × (driver_close s₂ ≡ some (s₃, ok 0))
      × (s₃.block p ≡ some 0)
      × (close_two s₂ ≡ none)
unfolding driver_open driver_close
open_two-close_two p q s ne =
    let s₂ = record s { counted = q; block = put (put s.block p (some 0)) q (some 0) } in
    (s₂, record s₂ { block = put s₂.block q none }, refl, ground arith, ground arith, ground arith)
