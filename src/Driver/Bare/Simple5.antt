-- ===== src/Driver/Bare/Simple5.antt =====
-- `Kernel Modules/hw5/modules/simple_chardev/simple_chardev.c`
use c_advanced_problems.Prelude.{List, []}
use c_advanced_problems.Driver.Kernel.{ok, Kernel, Call, Run}
use c_advanced_problems.Driver.Lenient.{lenient_init, lenient_exit}

-- `ModInit`
abbrev pub mod_init : Kernel → Run
mod_init k = lenient_init "simple_chardev" k ([], ok 0)

-- `ModExit`
abbrev pub mod_exit : List Call
mod_exit = lenient_exit
