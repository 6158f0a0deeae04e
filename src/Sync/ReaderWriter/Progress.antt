-- ===== src/Sync/ReaderWriter/Progress.antt =====
-- When a thread that uses the lock can go on.
use c_advanced_problems.Prelude.{
  ℕ, ◌<◌, ◌≡◌, ◌⊎◌, inl, inr, Bool, true, false, none, some, List, arith, dec_lt,
}
use c_advanced_problems.Prelude.Tally.{tally, le-tally, tally-pos}
use c_advanced_problems.Sync.Interleaving.{System, run}
use c_advanced_problems.Sync.ReaderWriter.{Shared, Pc, acquire, acquire_write, step, start}
use c_advanced_problems.Sync.ReaderWriter.Invariant.{
  in_mutex, waiting, counted, leaving, writing, IsBalanced, run-IsBalanced,
}

abbrev pub can_step : Shared → Pc → Bool
can_step m p = elim (step m p) [ none ↦ false | some r ↦ true ]

-- The head of a thread's loop, where a thread that has finished stays.
abbrev pub at_head : Pc → Bool
at_head acquire = true
at_head acquire_write = true
at_head _ = false

-- A thread in the middle of a round that can go on.
abbrev pub GoesOn : Shared → Pc → Type 0
GoesOn m p = (can_step m p ≡ true) × (at_head p ≡ false)

abbrev pub Progress : ℕ → System Shared Pc → Type 0
Progress n s = (j : ℕ) × (j < n) × GoesOn s.shared (s.pc j)

writer-steps : (m : Shared) (p : Pc) → 0 < writing p → GoesOn m p
unfolding step
writer-steps m acquire h = ground arith
writer-steps m _ h = ground arith

leaver-steps : (m : Shared) (p : Pc) → 0 < leaving p → GoesOn m p
unfolding step
leaver-steps m acquire h = ground arith
leaver-steps m _ h = ground arith

holder-steps : (m : Shared) (p : Pc) → 0 < in_mutex p → (waiting p ≡ 1) ⊎ GoesOn m p
unfolding step
holder-steps m acquire h = ground arith
holder-steps m _ h = ground arith

reader-steps : (m : Shared) (p : Pc) → 0 < counted p → 0 < m.mutex → GoesOn m p
unfolding step
reader-steps m acquire h k = ground arith
reader-steps m _ h k = ground arith

first-steps : (m : Shared) (p : Pc) → waiting p ≡ 1 → 0 < m.writelock → GoesOn m p
unfolding step
first-steps m acquire h k = ground arith
first-steps m _ h k = ground arith

blocked-by : (m : Shared) (p : Pc) → can_step m p ≡ false → (m.mutex ≡ 0) ⊎ (m.writelock ≡ 0)
unfolding step
blocked-by m acquire h = ground arith
blocked-by m _ h = ground arith

module _ (n : ℕ) (s : System Shared Pc) (b : IsBalanced n s) where
  writer-Progress : 0 < tally writing n s.pc → Progress n s
  writer-Progress h =
      let (j, k, w) = tally-pos writing n s.pc h in (j, k, writer-steps s.shared (s.pc j) w)

  -- The first reader is the only one in the mutex, and waits for a writer.
  first-Progress : 0 < tally waiting n s.pc → s.shared.writelock ≡ 0 → Progress n s
  first-Progress h e = writer-Progress (ground (arith, b))

  mutex-Progress : s.shared.mutex ≡ 0 → Progress n s
  mutex-Progress e =
      let (j, k, w) = tally-pos in_mutex n s.pc (omega (arith, b.mutex)) in
      elim (holder-steps s.shared (s.pc j) w) [
        | inl first ↦ elim (dec_lt 0 s.shared.writelock) [
          | yes free ↦ (j, k, first-steps s.shared (s.pc j) first free)
          | no taken ↦
              first-Progress (omega (arith, first, le-tally waiting n s.pc j k)) (omega arith)
        ]
        | inr goes ↦ (j, k, goes)
      ]

  writelock-Progress : s.shared.writelock ≡ 0 → Progress n s
  writelock-Progress e = elim (dec_lt 0 (tally writing n s.pc)) [
    | yes w ↦ writer-Progress w
    | no nw ↦ elim (dec_lt 0 (tally leaving n s.pc)) [
      | yes l ↦
          let (j, k, w) = tally-pos leaving n s.pc l in (j, k, leaver-steps s.shared (s.pc j) w)
      | no nl ↦ elim (dec_lt 0 s.shared.mutex) [
        | yes free ↦
            let (j, k, w) = tally-pos counted n s.pc (ground (arith, b)) in
            (j, k, reader-steps s.shared (s.pc j) w free)
        | no taken ↦ mutex-Progress (omega arith)
      ]
    ]
  ]

  blocked-Progress : (i : ℕ) → i < n → can_step s.shared (s.pc i) ≡ false → Progress n s
  blocked-Progress i h e = elim (blocked-by s.shared (s.pc i) e) [
    | inl m ↦ mutex-Progress m
    | inr w ↦ writelock-Progress w
  ]

-- Whatever the schedule, where a thread has to wait, some thread in the middle of a round can go on:
-- the threads do not deadlock, also once some have finished.
pub readers_and_writers-Progress :
    (n : ℕ) (is_reader : ℕ → Bool) (is : List ℕ) (i : ℕ)
    → i < n
    → can_step (run step n is (start is_reader)).shared ((run step n is (start is_reader)).pc i)
      ≡ false
    → Progress n (run step n is (start is_reader))
readers_and_writers-Progress n is_reader is i h e =
    blocked-Progress n (run step n is (start is_reader)) (run-IsBalanced n is_reader is) i h e
