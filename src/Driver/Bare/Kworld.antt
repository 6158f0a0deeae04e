-- ===== src/Driver/Bare/Kworld.antt =====
-- `Kernel Modules/hw4/modules/hello_kworld/hello_kworld.c`
use c_advanced_problems.Prelude.{List, []}
use c_advanced_problems.Driver.Kernel.{ok, Kernel, Call, Run}
use c_advanced_problems.Driver.Lenient.{lenient_init, lenient_exit}

-- `ModInit`
abbrev pub mod_init : Kernel → Run
mod_init k = lenient_init "hello_kworld" k ([], ok 0)

-- `ModExit`
abbrev pub mod_exit : List Call
mod_exit = lenient_exit
