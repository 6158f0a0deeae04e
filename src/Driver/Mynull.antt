-- ===== src/Driver/Mynull.antt =====
-- `Kernel Modules/hw4/modules/mynull/mynull.c`: nothing to read, and writes are discarded.
use c_advanced_problems.Prelude.{ℕ, List, []}
use c_advanced_problems.Driver.Kernel.{Status, ok, Kernel, Call, Run}
use c_advanced_problems.Driver.User.{Reply}
use c_advanced_problems.Driver.Checked.{checked_init, checked_exit}

-- `ModInit`
abbrev pub mod_init : Kernel → Run
mod_init = checked_init "mynull"

-- `ModExit`
abbrev pub mod_exit : List Call
mod_exit = checked_exit

unfoldable pub read_null : (count offset : ℕ) → Reply
read_null count offset = record { bytes = []; offset = offset; status = ok 0 }

-- `write_null`: the status alone, since nothing else changes.
unfoldable pub write_null : (count : ℕ) → Status
write_null count = ok count
