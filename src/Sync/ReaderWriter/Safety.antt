-- ===== src/Sync/ReaderWriter/Safety.antt =====
-- What the reader-writer lock promises.
use c_advanced_problems.Prelude.{ℕ, ◌+◌, ◌≤◌, ◌<◌, ◌≡◌, ◌≢◌, Bool, true, false, some, List, arith}
use c_advanced_problems.Prelude.Tally.{le-tally}
use c_advanced_problems.Sync.Interleaving.{run}
use c_advanced_problems.Sync.ReaderWriter.{Pc, reading, load, store, print_value, step, start}
use c_advanced_problems.Sync.ReaderWriter.Invariant.{
  counted, writing, run-IsBalanced, run-IsCurrent, not-both_writing,
}

-- The accesses to `value` that the lock protects.
abbrev pub reads : Pc → Bool
reads reading = true
reads print_value = true
reads _ = false

abbrev pub writes : Pc → Bool
writes load = true
writes (store loaded) = true
writes _ = false

reads-counted : (p : Pc) → reads p ≡ true → 1 ≤ counted p + writing p
reads-counted reading h = omega arith
reads-counted print_value h = omega arith
reads-counted _ h = cc

writes-writing : (p : Pc) → writes p ≡ true → 1 ≤ writing p
writes-writing load h = omega arith
writes-writing (store loaded) h = omega arith
writes-writing _ h = cc

-- Whatever the schedule, while one thread is in the middle of `value++`, no other thread reads the
-- value, be it a reader or a writer that prints it, or writes it.
pub mutual_exclusion :
    (n : ℕ) (is_reader : ℕ → Bool) (is : List ℕ) (i j : ℕ)
    → i < n
    → j < n
    → i ≢ j
    → writes ((run step n is (start is_reader)).pc i) ≡ true
    → (reads ((run step n is (start is_reader)).pc j) ≡ false)
      × (writes ((run step n is (start is_reader)).pc j) ≡ false)
mutual_exclusion n is_reader is i j h k ne w =
    let s = run step n is (start is_reader) in
    let b = run-IsBalanced n is_reader is in
    let in_i = writes-writing (s.pc i) w in
    (
      ground (
        arith,
        b,
        in_i,
        reads-counted (s.pc j),
        le-tally writing n s.pc i h,
        le-tally counted n s.pc j k,
        not-both_writing n s i j b h k ne,
      ),
      ground (arith, in_i, writes-writing (s.pc j), not-both_writing n s i j b h k ne),
    )

-- Whatever the schedule, no update is lost: the write of a `value++` leaves one more than the value
-- that is there.
pub no_lost_update :
    (n : ℕ) (is_reader : ℕ → Bool) (is : List ℕ) (i loaded : ℕ)
    → i < n
    → (run step n is (start is_reader)).pc i ≡ store loaded
    → step (run step n is (start is_reader)).shared ((run step n is (start is_reader)).pc i)
      ≡ some (
        record ((run step n is (start is_reader)).shared) {
          value = (run step n is (start is_reader)).shared.value + 1;
        },
        print_value,
      )
unfolding step
no_lost_update n is_reader is i loaded h e =
    let s = run step n is (start is_reader) in
    let c = (run-IsCurrent n is_reader is).fresh i h in ground (arith, c)
