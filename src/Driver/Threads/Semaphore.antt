-- ===== src/Driver/Threads/Semaphore.antt =====
-- `Kernel Modules/hw5/modules/mysemaphore/mysemaphore.c`
use Prim.Native.String.{String}
use c_advanced_problems.Prelude.{ℕ, List, [], ◌∷◌}
use c_advanced_problems.Driver.Kernel.{
  ok, Task, task, null, err_ptr, Kernel, Call, kill_pid, kthread_create, wake_up_process,
  wait_for_completion, Run, ◌▹◌,
}
use c_advanced_problems.Driver.Lenient.{lenient_init, lenient_exit}

-- The creation of thread `i`; what follows it runs unless the answer is NULL.
abbrev pub with_thread : Task → (i : ℕ) → String → Run → Run
with_thread null i name woken = ([], ok 0)
with_thread task i name woken = kthread_create i name ▹ woken
with_thread err_ptr i name woken = woken

-- `ModInit`: both threads are woken up once both are created.
abbrev pub mod_init : Kernel → Run
mod_init k = lenient_init "mysemaphore" k (
    with_thread (k.thread 0) 0 "mysemaphore_thread1" (
      with_thread (k.thread 1) 1 "mysemaphore_thread2"
        (wake_up_process 0 ▹ wake_up_process 1 ▹ ([], ok 0))))

-- `ModExit`
abbrev pub mod_exit : List Call
mod_exit = kill_pid 0 ∷ kill_pid 1 ∷ wait_for_completion ∷ wait_for_completion ∷ lenient_exit
