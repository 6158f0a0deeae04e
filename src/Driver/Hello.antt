-- ===== src/Driver/Hello.antt =====
-- `Kernel Modules/hw4/modules/hello/hello.c`: a device that is read as a greeting.
-- `copy_to_user` is an argument, `copy`: of `n` bytes asked for, `copy n` are not copied.
pub mod Drain
use c_advanced_problems.Prelude.{ℕ, ◌+◌, List, [], ◌∷◌, ◌++◌, if◌then◌else◌, leb, ltb, length, take}
use c_advanced_problems.Driver.Kernel.{Status, ok, Kernel, Call, Run}
use c_advanced_problems.Driver.User.{codes, Reply, sub64}
use c_advanced_problems.Driver.Checked.{checked_init, checked_exit}

-- `ModInit`
abbrev pub mod_init : Kernel → Run
mod_init = checked_init "hello"

-- `ModExit`
abbrev pub mod_exit : List Call
mod_exit = checked_exit

-- The array `hello`: the characters, a newline and the NUL, which is copied too.
abbrev pub hello : List ℕ
hello = codes "Hello from Group 20" ++ 10 ∷ 0 ∷ []

abbrev driver_open : Status
driver_open = ok 0

abbrev driver_close : Status
driver_close = ok 0

-- The copy that `read_hello` makes of `to_copy` bytes, always from the start of the array.
deliver : (ℕ → ℕ) → ℕ → ℕ → Reply
deliver copy to_copy offset =
    let done = sub64 to_copy (copy to_copy) in
    record { bytes = take done hello; offset = offset + done; status = ok done }

unfoldable pub read_hello : (ℕ → ℕ) → (count offset : ℕ) → Reply
unfolding deliver
read_hello copy count offset =
    if leb (length hello) offset
    then record { bytes = []; offset = offset; status = ok 0 }
    else deliver copy (if ltb count (length hello) then count else length hello) offset
