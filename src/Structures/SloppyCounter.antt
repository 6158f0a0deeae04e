-- ===== src/Structures/SloppyCounter.antt =====
-- `Multithreaded Datastructures/sloppy-counter.c`: a counter with a part for each thread, which is added
-- to the whole only when it reaches a threshold. `increment` holds the lock of the part that it
-- changes from start to end, and the lock of the whole around the addition, so here increments happen
-- one after the other; Threads has them with the locks. The numbers are those an `int` holds.
pub mod Bounds
pub mod Threads
use c_advanced_problems.Prelude.{ℕ, suc, ◌+◌, List, [], ◌∷◌, if◌then◌else◌, leb, replicate, ◌++◌}
use c_advanced_problems.Prelude.Tally.{put}

-- THREADS, THRESHOLD and MAX
abbrev pub threads : ℕ
threads = 10

abbrev pub default_threshold : ℕ
default_threshold = 20

abbrev pub rounds : ℕ
rounds = 100

-- `counter`, less the locks.
pub record Counter : Type 0 where
  pub value : ℕ
  pub local : ℕ → ℕ
  pub threshold : ℕ

abbrev pub init : (threshold : ℕ) → Counter
init threshold = record { value = 0; local = λ i. 0; threshold = threshold }

unfoldable pub increment : Counter → (thread_id : ℕ) → Counter
increment c thread_id =
    let here = c.local thread_id + 1 in
    if leb c.threshold here
    then record c { value = c.value + here; local = put c.local thread_id 0 }
    else record c { local = put c.local thread_id here }

abbrev pub get : Counter → ℕ
get c = c.value

-- The increments of all threads, each under the number that its thread found in its `threadWrapper`.
unfoldable pub increment_all : Counter → List ℕ → Counter
increment_all c [] = c
increment_all c (thread_id ∷ rest) = increment_all (increment c thread_id) rest

-- What `incrementWrapper` calls for one thread.
abbrev pub increment_wrapper : (thread_id : ℕ) → List ℕ
increment_wrapper thread_id = replicate rounds thread_id
