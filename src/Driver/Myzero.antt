-- ===== src/Driver/Myzero.antt =====
-- `Kernel Modules/hw4/modules/myzero/myzero.c`: as many zeros as are asked for.
pub mod Zeros
use c_advanced_problems.Prelude.{ℕ, zero, suc, ◌+◌, Bool, List, if◌then◌else◌}
use c_advanced_problems.Prelude.Tally.{put}
use c_advanced_problems.Driver.Kernel.{Status, ok, Kernel, Call, Run}
use c_advanced_problems.Driver.Checked.{checked_init, checked_exit}

-- `ModInit`
abbrev pub mod_init : Kernel → Run
mod_init = checked_init "myzero"

-- `ModExit`
abbrev pub mod_exit : List Call
mod_exit = checked_exit

-- The memory of the reading program, the new file position and the returned value.
pub record Zeroed : Type 0 where
  pub memory : ℕ → ℕ
  pub offset : ℕ
  pub status : Status

-- `put_user`: an address that the program may not write is left alone, and the error is not read.
abbrev pub put_user : (writable : ℕ → Bool) → (ℕ → ℕ) → (address : ℕ) → ℕ → ℕ
put_user writable memory address = if writable address then put memory address 0 else memory

-- The loop of `read_zero`, with `rounds` rounds left, from `bytes` on.
zero_loop : (writable : ℕ → Bool) → (user rounds bytes : ℕ) → (ℕ → ℕ) → ℕ → ℕ
zero_loop writable user zero bytes memory = memory
zero_loop writable user (suc rounds) bytes memory =
    zero_loop writable user rounds (bytes + 1) (put_user writable memory (user + bytes))

pub read_zero : (writable : ℕ → Bool) → (user count offset : ℕ) → (ℕ → ℕ) → Zeroed
unfolding zero_loop
read_zero writable user count offset memory = record {
  memory = zero_loop writable user count 0 memory;
  offset = offset + count;
  status = ok count;
}

-- `write_zero`: the status alone, since nothing else changes.
unfoldable pub write_zero : (count : ℕ) → Status
write_zero count = ok count
