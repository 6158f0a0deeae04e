-- ===== src/Driver/Bare.antt =====
-- The three modules whose device has no operations: `Kernel Modules/hw4/modules/hello_kworld`,
-- `hw4/modules/simple_chardev` and its copy `hw5/modules/simple_chardev`.
pub mod Kworld
pub mod Simple4
pub mod Simple5
