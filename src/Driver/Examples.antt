-- ===== src/Driver/Examples.antt =====
-- The theorems about the drivers at concrete requests, and single runs of their handlers.
use c_advanced_problems.Prelude.{
  ℕ, ◌+◌, ◌≡◌, ◌⊎◌, refl, Bool, true, false, some, none, [], ◌∷◌, ◌++◌, take, ◌==◌, ◌&&◌, arith,
  ltb, not,
}
use c_advanced_problems.Sync.Interleaving.{run}
use c_advanced_problems.Sync.Termination.{rounds}
use c_advanced_problems.Driver.Threads.Counting
use c_advanced_problems.Driver.Threads.Counting.Invariant.{counted}
use c_advanced_problems.Driver.Threads.Counting.Laws.{printed_by, exit_reports_all}
use c_advanced_problems.Driver.Kernel.{
  ok, err, eio, efault, Kernel, task, empty, replay, first_fault, kill_pid, IsClean,
}
use c_advanced_problems.Driver.User.{all_copied, drain, copies}
use c_advanced_problems.Driver.Checked.{checked_init}
use c_advanced_problems.Driver.Hello
use c_advanced_problems.Driver.Hello.Drain.{drain-copies}
use c_advanced_problems.Driver.HelloCounted
use c_advanced_problems.Driver.HelloCounted.Session.{open_two, close_two, open_two-close_two}
use c_advanced_problems.Driver.Mynull
use c_advanced_problems.Driver.Myzero
use c_advanced_problems.Driver.Openclose
use c_advanced_problems.Driver.Openclose.Load.{mod_exit-create_devices}
use c_advanced_problems.Driver.Mybuffer
use c_advanced_problems.Driver.Mybuffer.Data.{driver_read-driver_write, driver_read-overrun}
use c_advanced_problems.Driver.BufferSync
use c_advanced_problems.Driver.BufferSync.Threads.{
  Reach-IsConserved, IsConserved, System, copied, between, start, here, next, enter_write,
  sub_write,
}
use c_advanced_problems.Driver.Loading.{
  CheckedModule, UntestedModule, init, exit, untested_init, untested_exit, held, init-exit-IsClean,
  init-refused, untested_init-refused,
}

-- A kernel that grants everything, one that has no class to give, and one that takes no cdev.
abbrev granting : Kernel
granting = record {
  region = true;
  cdev = true;
  add = true;
  class = true;
  device = λ _. true;
  thread = λ _. task;
}

abbrev without_class : Kernel
without_class = record granting { class = false }

abbrev without_cdev : Kernel
without_cdev = record granting { cdev = false }

abbrev without_region : Kernel
without_region = record granting { region = false }

init-refused_example :
    ((init CheckedModule.hello without_class).1 ≡ err eio)
    × ((held (init CheckedModule.hello without_class).0).live ≡ true)
    × ((held (init CheckedModule.hello without_class).0).cdevs ≡ 1)
    × ((held (init CheckedModule.hello without_class).0).minors ≡ 1)
init-refused_example = init-refused CheckedModule.hello without_class refl

init-exit-IsClean_example :
    IsClean (held ((init CheckedModule.hello granting).0 ++ exit CheckedModule.hello))
unfolding checked_init
init-exit-IsClean_example = init-exit-IsClean CheckedModule.hello granting refl

untested_init-refused_example :
    ((untested_init UntestedModule.mykthread without_cdev).1 ≡ ok 0)
    × IsClean (held (untested_init UntestedModule.mykthread without_cdev).0)
    × (first_fault empty (
          (untested_init UntestedModule.mykthread without_cdev).0
          ++ untested_exit UntestedModule.mykthread)
        ≡ some (kill_pid 0))
untested_init-refused_example =
    untested_init-refused UntestedModule.mykthread without_cdev refl refl

-- `head -c 7` over and over: three times the first seven bytes.
drain-copies_example : drain (Hello.read_hello all_copied 7) 4 0 ≡ copies 3 (take 7 Hello.hello)
drain-copies_example = drain-copies 7 3 0 (omega arith) (omega arith) (omega arith) (omega arith)

-- No block is allocated.
abbrev unallocated : HelloCounted.State
unallocated = record { counted = 0; block = λ _. none }

open_two-close_two_example :
    (s₂ : HelloCounted.State) × (s₃ : HelloCounted.State) × (open_two 7 8 unallocated
      ≡ some (s₂, ok 0))
    × (HelloCounted.driver_close s₂ ≡ some (s₃, ok 0))
    × (s₃.block 7 ≡ some 0)
    × (close_two s₂ ≡ none)
open_two-close_two_example = open_two-close_two 7 8 unallocated (omega arith)

-- Address 101 is write-protected.
abbrev most_writable : ℕ → Bool
most_writable a = not (a == 101)

driver_read-driver_write_example :
    ((Mybuffer.driver_write all_copied (λ a. a) 5 (record { length = 0; memory = λ _. 0 })).1
      ≡ ok 5)
    × (Mybuffer.driver_read false all_copied 3 0
          (Mybuffer.driver_write all_copied (λ a. a) 5 (record { length = 0; memory = λ _. 0 })).0
        ≡ some (record { bytes = 0 ∷ 1 ∷ 2 ∷ []; offset = 3; status = ok 3 }))
driver_read-driver_write_example =
    driver_read-driver_write (λ a. a) 5 3 (record { length = 0; memory = λ _. 0 }) (omega arith)
      (omega arith) (omega arith)

driver_read-overrun_example :
    Mybuffer.driver_read false all_copied 2 9 (record { length = 4; memory = λ a. a })
    ≡ some (record { bytes = 0 ∷ 1 ∷ []; offset = 11; status = ok 2 })
driver_read-overrun_example =
    driver_read-overrun 2 9 (record { length = 4; memory = λ a. a }) (omega arith) (omega arith)
      (omega arith) (omega arith) (omega arith)

-- Of five bytes two are not copied.
abbrev two_left : ℕ → ℕ
two_left n = 2

-- A writer with five bytes, between its two atomic operations.
abbrev five_entered : System
five_entered = record start {
  shared =
      BufferSync.write_store (λ a. a) (BufferSync.write_copy all_copied 5 BufferSync.loaded)
        BufferSync.loaded;
  writer = copied 5;
}

abbrev five_in_flight : System
five_in_flight = record five_entered {
  shared = BufferSync.write_sub 5 five_entered.shared;
  writer = between 5;
}

Reach-IsConserved_example : IsConserved five_in_flight
Reach-IsConserved_example =
    Reach-IsConserved (next (next here (enter_write all_copied (λ a. a) 5 refl)) (sub_write 5 refl))

mod_exit-create_devices_example :
    ((j : ℕ) → (replay empty (Openclose.mod_init granting).0).devices j ≡ (ltb j 257 && true))
    × ((j : ℕ)
        → (replay empty ((Openclose.mod_init granting).0 ++ Openclose.mod_exit)).devices j ≡ false)
    × ((replay empty ((Openclose.mod_init granting).0 ++ Openclose.mod_exit)).minors ≡ 257)
    × ((replay empty ((Openclose.mod_init granting).0 ++ Openclose.mod_exit)).cdevs ≡ 0)
    × ((replay empty ((Openclose.mod_init granting).0 ++ Openclose.mod_exit)).live ≡ false)
    × ((replay empty ((Openclose.mod_init granting).0 ++ Openclose.mod_exit)).classes ≡ 0)
    × ((replay empty ((Openclose.mod_init granting).0 ++ Openclose.mod_exit)).faults ≡ 1)
mod_exit-create_devices_example = mod_exit-create_devices granting refl

-- Single runs of the handlers.
read_null_end : Mynull.read_null 100 3 ≡ record { bytes = []; offset = 3; status = ok 0 }
unfolding Mynull.read_null
read_null_end = refl

write_null_all : Mynull.write_null 100 ≡ ok 100
unfolding Mynull.write_null
write_null_all = refl

write_zero_all : Myzero.write_zero 100 ≡ ok 100
unfolding Myzero.write_zero
write_zero_all = refl

read_hello_three :
    Hello.read_hello all_copied 3 20
    ≡ record { bytes = take 3 Hello.hello; offset = 23; status = ok 3 }
unfolding Hello.read_hello
read_hello_three = refl

driver_read_faulted :
    Mybuffer.driver_read false two_left 3 0 (record { length = 4; memory = λ a. a })
    ≡ some (record { bytes = []; offset = 0; status = err efault })
unfolding Mybuffer.driver_read Mybuffer.read_filled
driver_read_faulted = refl

-- ModExit has sent both signals while thread 0 holds the mutex.
abbrev sent_early : ℕ → Counting.Pc
sent_early = (run Counting.step 3 (0 ∷ 0 ∷ 2 ∷ 2 ∷ []) Counting.start).pc

abbrev all_ended : ℕ → Counting.Pc
all_ended = (run Counting.step 3 ((0 ∷ 0 ∷ 2 ∷ 2 ∷ []) ++ rounds 3 42) Counting.start).pc

exit_reports_all_example :
    ((printed_by (sent_early 2) ≡ none)
      ⊎ ((Counting.Laws.has_finished (sent_early 0) ≡ true)
          × (Counting.Laws.has_finished (sent_early 1) ≡ true)))
    × ((Counting.Laws.has_sent (sent_early 2) ≡ false)
        ⊎ (printed_by (all_ended 2) ≡ some (counted (all_ended 0) + counted (all_ended 1))))
exit_reports_all_example = exit_reports_all (0 ∷ 0 ∷ 2 ∷ 2 ∷ [])
