-- ===== src/Driver/Threads.antt =====
-- Loading and unloading of the two modules that start kernel threads,
-- `Kernel Modules/hw5/modules/{mykthread,mysemaphore}`. Both test the answer of `kthread_create`
-- against NULL only. The creation runs with the device registered, and its error returns release
-- nothing. Counting has the threads of mysemaphore themselves.
pub mod Kthread
pub mod Semaphore
pub mod Counting
