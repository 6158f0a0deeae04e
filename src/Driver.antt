-- ===== src/Driver.antt =====
-- The character devices and kernel threads of `Kernel Modules/hw4` and `hw5`.
pub mod Kernel
pub mod User
pub mod Checked
pub mod Lenient
pub mod Hello
pub mod HelloCounted
pub mod Mynull
pub mod Myzero
pub mod Openclose
pub mod Mybuffer
pub mod BufferSync
pub mod Bare
pub mod Threads
pub mod Loading
mod Examples
