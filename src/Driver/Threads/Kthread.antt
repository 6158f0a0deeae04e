-- ===== src/Driver/Threads/Kthread.antt =====
-- `Kernel Modules/hw5/modules/mykthread/mykthread.c`
use c_advanced_problems.Prelude.{List, [], ◌∷◌}
use c_advanced_problems.Driver.Kernel.{
  ok, err, eio, Task, task, null, err_ptr, Kernel, Call, kthread_create, kill_pid, wake_up_process,
  wait_for_completion, Run, ◌▹◌,
}
use c_advanced_problems.Driver.Lenient.{lenient_init, lenient_exit}

-- The end of `ModInit`: a task that is an error pointer is woken up like any other.
abbrev pub start_thread : Task → Run
start_thread null = ([], err eio)
start_thread task = kthread_create 0 "mykernelthread" ▹ wake_up_process 0 ▹ ([], ok 0)
start_thread err_ptr = wake_up_process 0 ▹ ([], ok 0)

-- `ModInit`
abbrev pub mod_init : Kernel → Run
mod_init k = lenient_init "mykthread" k (start_thread (k.thread 0))

-- `ModExit`
abbrev pub mod_exit : List Call
mod_exit = kill_pid 0 ∷ wait_for_completion ∷ lenient_exit
