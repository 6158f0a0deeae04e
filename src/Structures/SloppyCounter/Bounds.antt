-- ===== src/Structures/SloppyCounter/Bounds.antt =====
-- How far the sloppy counter stays behind.
use c_advanced_problems.Prelude.{
  ℕ, suc, ◌+◌, ◌*◌, ◌≤◌, ◌<◌, ◌≡◌, refl, List, [], ◌∷◌, arith, length, leb, Bool-cases, inl, inr,
  subst,
}
use c_advanced_problems.Prelude.Tally.{put-all, tally, tally-put, tally-zero, tally-bound}
use c_advanced_problems.Structures.SloppyCounter.{
  Counter, init, increment, increment_all, get, threads,
}

abbrev count : ℕ → ℕ
count c = c

-- The parts and the whole together are what was counted; each part is below the threshold.
record Counts (c : Counter) (t total : ℕ) : Type 0 where
  threshold : c.threshold ≡ suc t
  together : c.value + tally count threads c.local ≡ total
  below : (i : ℕ) → c.local i ≤ t

increment-Counts :
    (c : Counter) (t total i : ℕ)
    → i < threads
    → Counts c t total
    → Counts (increment c i) t (suc total)
unfolding increment
increment-Counts c t total i h k = elim (Bool-cases (leb c.threshold (c.local i + 1))) [
  | inl full ↦ rw full (record {
    threshold = k.threshold;
    together = omega (arith, k.together, k.threshold, tally-put count threads c.local i 0 h);
    below = put-all (λ j x. x ≤ t) c.local i 0 (omega arith) (λ j ne. k.below j);
  })
  | inr room ↦ rw room (record {
    threshold = k.threshold;
    together = omega (arith, k.together, tally-put count threads c.local i (c.local i + 1) h);
    below =
        put-all (λ j x. x ≤ t) c.local i (c.local i + 1) (ground (arith, room, k.threshold))
          (λ j ne. k.below j);
  })
]

abbrev pub AreBelow : ℕ → List ℕ → Type 0
AreBelow n [] = Unit
AreBelow n (i ∷ is) = (i < n) × AreBelow n is

increment_all-Counts :
    (c : Counter) (t total : ℕ) (ids : List ℕ)
    → AreBelow threads ids
    → Counts c t total
    → Counts (increment_all c ids) t (length ids + total)
unfolding increment_all
increment_all-Counts c t total [] h k = subst (Counts c t) (omega arith) k
increment_all-Counts c t total (i ∷ ids) (h, hs) k =
    subst (Counts (increment_all (increment c i) ids) t) (omega arith)
      (increment_all-Counts (increment c i) t (suc total) ids hs (increment-Counts c t total i h k))

init-Counts : (t : ℕ) → Counts (init (suc t)) t 0
init-Counts t = record {
  threshold = refl;
  together = omega (arith, tally-zero count threads (init (suc t)).local (λ i. refl));
  below = λ i. omega arith;
}

-- In whatever order the threads get their increments in, with a threshold of at least 1 `get` returns
-- no more than what was counted, and at most `threads * (threshold - 1)` less.
get-increment_all :
    (t : ℕ) (ids : List ℕ)
    → AreBelow threads ids
    → (get (increment_all (init (suc t)) ids) ≤ length ids)
      × (length ids ≤ get (increment_all (init (suc t)) ids) + threads * t)
get-increment_all t ids h =
    let c = increment_all (init (suc t)) ids in
    let k = increment_all-Counts (init (suc t)) t 0 ids h (init-Counts t) in
    (
      omega (arith, k.together),
      omega (arith, k.together, tally-bound count threads t c.local k.below),
    )

-- With a threshold of 1 `get` returns what was counted.
get-increment_all_exact :
    (ids : List ℕ) → AreBelow threads ids → get (increment_all (init 1) ids) ≡ length ids
get-increment_all_exact ids h =
    let (above, below) = get-increment_all 0 ids h in omega (arith, above, below)
