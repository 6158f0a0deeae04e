-- ===== src/Sync/NoStarveMutex/Progress.antt =====
-- When a worker can go on.
use c_advanced_problems.Prelude.{ℕ, ◌<◌, ◌≡◌, Bool, true, false, none, some, List, arith, dec_lt}
use c_advanced_problems.Prelude.Tally.{tally, le-tally, tally-pos}
use c_advanced_problems.Sync.Interleaving.{System, run}
use c_advanced_problems.Sync.NoStarveMutex.{Shared, Pc, acquire, finished, step, start}
use c_advanced_problems.Sync.NoStarveMutex.Invariant.{
  in_mutex, past, in_room1, in_room2, IsBalanced, run-IsBalanced,
}

abbrev pub can_step : Shared → Pc → Bool
can_step m p = elim (step m p) [ none ↦ false | some r ↦ true ]

abbrev pub is_finished : Pc → Bool
is_finished finished = true
is_finished _ = false

abbrev pub Progress : ℕ → System Shared Pc → Type 0
Progress n s = (j : ℕ) × (j < n) × (can_step s.shared (s.pc j) ≡ true)

holder-steps : (m : Shared) (p : Pc) → 0 < in_mutex p → can_step m p ≡ true
unfolding step
holder-steps m acquire h = ground arith
holder-steps m _ h = ground arith

past-steps : (m : Shared) (p : Pc) → 0 < past p → 0 < m.mutex → can_step m p ≡ true
unfolding step
past-steps m acquire h k = ground arith
past-steps m _ h k = ground arith

room1-steps :
    (m : Shared) (p : Pc) → 0 < in_room1 p → 0 < m.mutex → 0 < m.drehkreuz1 → can_step m p ≡ true
unfolding step
room1-steps m acquire h k d = ground arith
room1-steps m _ h k d = ground arith

room2-steps :
    (m : Shared) (p : Pc) → 0 < in_room2 p → 0 < m.mutex → 0 < m.drehkreuz2 → can_step m p ≡ true
unfolding step
room2-steps m acquire h k d = ground arith
room2-steps m _ h k d = ground arith

-- With the first turnstile open, only a worker in room 2 waits.
outside-steps :
    (m : Shared) (p : Pc)
    → is_finished p ≡ false
    → 0 < m.mutex
    → 0 < m.drehkreuz1
    → in_room2 p ≡ 0
    → can_step m p ≡ true
unfolding step
outside-steps m acquire f k d r = ground arith
outside-steps m _ f k d r = ground arith

module _ (n : ℕ) (s : System Shared Pc) (b : IsBalanced n s) (free : 0 < s.shared.mutex) where
  room1-Progress : 0 < s.shared.drehkreuz1 → 0 < s.shared.warteraum1 → Progress n s
  room1-Progress d r =
      let (j, k, w) = tally-pos in_room1 n s.pc (omega (arith, b.room1)) in
      (j, k, room1-steps s.shared (s.pc j) w free d)

  room2-Progress : 0 < s.shared.drehkreuz2 → Progress n s
  room2-Progress d =
      let (j, k, w) = tally-pos in_room2 n s.pc (ground (arith, b)) in
      (j, k, room2-steps s.shared (s.pc j) w free d)

  first-Progress :
      (i : ℕ) → i < n → is_finished (s.pc i) ≡ false → 0 < s.shared.drehkreuz1 → Progress n s
  first-Progress i h f d = elim (dec_lt 0 s.shared.warteraum1) [
    | yes r ↦ room1-Progress d r
    | no empty ↦ (
      i,
      h,
      outside-steps s.shared (s.pc i) f free d (ground (arith, b, le-tally in_room2 n s.pc i h)),
    )
  ]

  free-Progress : (i : ℕ) → i < n → is_finished (s.pc i) ≡ false → Progress n s
  free-Progress i h f = elim (dec_lt 0 (tally past n s.pc)) [
    | yes t ↦ let (j, k, w) = tally-pos past n s.pc t in (j, k, past-steps s.shared (s.pc j) w free)
    | no nobody ↦ elim (dec_lt 0 s.shared.drehkreuz2) [
      | yes d ↦ room2-Progress d
      | no shut ↦ first-Progress i h f (omega (arith, b.turnstiles))
    ]
  ]

-- Whatever the schedule, as long as a worker has not finished, some worker can go on: the workers do
-- not deadlock.
pub workers-Progress :
    (n : ℕ) (is : List ℕ) (i : ℕ)
    → i < n
    → is_finished ((run step n is start).pc i) ≡ false
    → Progress n (run step n is start)
workers-Progress n is i h f =
    let s = run step n is start in
    let b = run-IsBalanced n is in
    elim (dec_lt 0 s.shared.mutex) [
      | yes free ↦ free-Progress n s b free i h f
      | no held ↦
          let (j, k, w) = tally-pos in_mutex n s.pc (omega (arith, b.mutex)) in
          (j, k, holder-steps s.shared (s.pc j) w)
    ]
