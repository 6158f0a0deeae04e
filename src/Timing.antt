-- ===== src/Timing.antt =====
-- The two modules of `Kernel Modules/hw5` that measure how late a timer fires.
pub mod Times
pub mod Observe
pub mod Timer
pub mod Workqueue
mod Examples
