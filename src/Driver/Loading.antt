-- ===== src/Driver/Loading.antt =====
-- What loading a module leaves behind, and what unloading it gives back.
use c_advanced_problems.Prelude.{some, ◌≡◌, true, false, List, ◌++◌, ◌&&◌, arith, if◌then◌else◌}
use c_advanced_problems.Driver.Kernel.{
  ok, err, eio, Kernel, Call, Run, Ledger, empty, replay, first_fault, IsClean, task, cdev_del,
  kill_pid,
}
use c_advanced_problems.Driver.Checked.{checked_init, checked_exit}
use c_advanced_problems.Driver.Lenient.{lenient_init, lenient_exit}
use c_advanced_problems.Driver.Hello
use c_advanced_problems.Driver.HelloCounted
use c_advanced_problems.Driver.Mynull
use c_advanced_problems.Driver.Myzero
use c_advanced_problems.Driver.Bare.Kworld
use c_advanced_problems.Driver.Bare.Simple4
use c_advanced_problems.Driver.Bare.Simple5
use c_advanced_problems.Driver.Threads.Kthread
use c_advanced_problems.Driver.Threads.Semaphore

pub data CheckedModule : Type 0 where
  hello hello_counted mynull myzero : CheckedModule

abbrev pub init : CheckedModule → Kernel → Run
init hello = Hello.mod_init
init hello_counted = HelloCounted.mod_init
init mynull = Mynull.mod_init
init myzero = Myzero.mod_init

abbrev pub exit : CheckedModule → List Call
exit hello = Hello.mod_exit
exit hello_counted = HelloCounted.mod_exit
exit mynull = Mynull.mod_exit
exit myzero = Myzero.mod_exit

-- The modules that test no answer from `class_create` on.
pub data UntestedModule : Type 0 where
  hello_kworld simple_chardev4 simple_chardev5 mykthread mysemaphore : UntestedModule

abbrev pub untested_init : UntestedModule → Kernel → Run
untested_init hello_kworld = Kworld.mod_init
untested_init simple_chardev4 = Simple4.mod_init
untested_init simple_chardev5 = Simple5.mod_init
untested_init mykthread = Kthread.mod_init
untested_init mysemaphore = Semaphore.mod_init

abbrev pub untested_exit : UntestedModule → List Call
untested_exit hello_kworld = Kworld.mod_exit
untested_exit simple_chardev4 = Simple4.mod_exit
untested_exit simple_chardev5 = Simple5.mod_exit
untested_exit mykthread = Kthread.mod_exit
untested_exit mysemaphore = Semaphore.mod_exit

-- What is held once the given calls have been made.
abbrev pub held : List Call → Ledger
held = replay empty

-- For each module that tests all answers: where loading returns 0, loading and then unloading leaves
-- nothing held, no live cdev, and releases nothing that is not held.
pub init-exit-IsClean :
    (m : CheckedModule) (k : Kernel) → (init m k).1 ≡ ok 0 → IsClean (held ((init m k).0 ++ exit m))
unfolding checked_init checked_exit
init-exit-IsClean hello k h = ground arith
init-exit-IsClean _ k h = ground arith

-- For each module that tests all answers: where the kernel refuses the device number, the cdev or
-- its registration, loading returns -EIO and leaves nothing held.
init-IsClean :
    (m : CheckedModule) (k : Kernel)
    → (k.region && k.cdev && k.add) ≡ false
    → ((init m k).1 ≡ err eio) × IsClean (held (init m k).0)
unfolding checked_init
init-IsClean hello k h = ground arith
init-IsClean _ k h = ground arith

-- For each module that tests all answers: where the cdev is registered and the class or the device
-- is then refused, loading returns -EIO with the cdev still live. The device number is still held
-- exactly where it was the class that was refused.
init-leaks :
    (m : CheckedModule) (k : Kernel)
    → (k.region && k.cdev && k.add) ≡ true
    → (k.class && k.device 0) ≡ false
    → ((init m k).1 ≡ err eio)
      × ((held (init m k).0).live ≡ true)
      × ((held (init m k).0).cdevs ≡ 1)
      × ((held (init m k).0).minors ≡ (if k.class then 0 else 1))
unfolding checked_init
init-leaks hello k h h' = ground arith
init-leaks _ k h h' = ground arith

-- For each module that tests all answers: where any of them is a refusal, loading returns -EIO. It
-- leaves the cdev live exactly where the refusal came after its registration, and holds the device
-- number exactly where it was then the class that was refused.
pub init-refused :
    (m : CheckedModule) (k : Kernel)
    → ((k.region && k.cdev && k.add) && (k.class && k.device 0)) ≡ false
    → ((init m k).1 ≡ err eio)
      × ((held (init m k).0).live ≡ (k.region && k.cdev && k.add))
      × ((held (init m k).0).cdevs ≡ (if k.region && k.cdev && k.add then 1 else 0))
      × ((held (init m k).0).minors ≡ (
          if (k.region && k.cdev && k.add) && k.class
          then 0
          else if k.region && k.cdev && k.add
          then 1
          else 0))
unfolding checked_init
init-refused hello k h = ground arith
init-refused _ k h = ground arith

-- For each module that tests no answer from `class_create` on: where the cdev is registered and the class
-- and the threads are granted, loading and then unloading leaves nothing held and releases nothing that
-- is not held, whatever the device was answered.
untested_init-exit-IsClean :
    (m : UntestedModule) (k : Kernel)
    → (k.region && k.cdev && k.add && k.class) ≡ true
    → k.thread 0 ≡ task
    → k.thread 1 ≡ task
    → IsClean (held ((untested_init m k).0 ++ untested_exit m))
unfolding lenient_init lenient_exit
untested_init-exit-IsClean hello_kworld k h t u = ground arith
untested_init-exit-IsClean mykthread k h t u = ground (arith, t)
untested_init-exit-IsClean mysemaphore k h t u = ground (arith, t, u)
untested_init-exit-IsClean _ k h t u = ground arith

-- Where unloading first goes wrong after a load that was given up and yet returned 0: the modules with
-- threads look up the process id of a thread that was never created, the others delete a cdev that was
-- never allocated or is freed.
abbrev pub first_wrong : UntestedModule → Call
first_wrong hello_kworld = cdev_del
first_wrong simple_chardev4 = cdev_del
first_wrong simple_chardev5 = cdev_del
first_wrong mykthread = kill_pid 0
first_wrong mysemaphore = kill_pid 0

-- For the modules that test no answer from `class_create` on: where the device number is granted and the
-- cdev or its registration is refused, loading gives back all that it took and yet returns 0, so that the
-- module stays loaded; the first call of its unloading that uses what is not there is `cdev_del`, or the
-- first `kill_pid` of the modules with threads.
pub untested_init-refused :
    (m : UntestedModule) (k : Kernel)
    → k.region ≡ true
    → (k.cdev && k.add) ≡ false
    → ((untested_init m k).1 ≡ ok 0)
      × IsClean (held (untested_init m k).0)
      × (first_fault empty ((untested_init m k).0 ++ untested_exit m) ≡ some (first_wrong m))
unfolding lenient_init lenient_exit
untested_init-refused hello_kworld k r h = ground arith
untested_init-refused simple_chardev4 k r h = ground arith
untested_init-refused simple_chardev5 k r h = ground arith
untested_init-refused mykthread k r h = ground arith
untested_init-refused mysemaphore k r h = ground arith
