-- ===== src/Sync.antt =====
-- The synchronisation problems of `Mutual Exclusion Problems` and `Mutual Exclusion`, as interleavings
-- of threads over shared memory.
pub mod Interleaving
pub mod Termination
pub mod ReaderWriter
pub mod ReaderWriterNoStarve
pub mod NoStarveMutex
pub mod Barrier
pub mod LockOrder
pub mod GlobalLock
pub mod Rendezvous
pub mod LockedCounter
pub mod ForkJoin
pub mod ConditionVariable
mod Examples
