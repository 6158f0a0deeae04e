-- ===== src/Driver/Myzero/Zeros.antt =====
-- What a read of myzero writes into the memory of the program.
use c_advanced_problems.Prelude.{
  ℕ, zero, suc, ◌+◌, ◌≡◌, refl, Bool, ◌&&◌, arith, if◌then◌else◌, leb, ltb, Bool-cases, inl, inr,
}
use c_advanced_problems.Prelude.Tally.{put}
use c_advanced_problems.Driver.Kernel.{ok}
use c_advanced_problems.Driver.Myzero.{zero_loop, read_zero}

zero_loop_lem :
    (writable : ℕ → Bool) (user rounds bytes : ℕ) (memory : ℕ → ℕ) (a : ℕ)
    → zero_loop writable user rounds bytes memory a ≡ (
        if leb (user + bytes) a && ltb a (user + bytes + rounds) && writable a then 0 else memory a)
unfolding zero_loop
zero_loop_lem writable user zero bytes memory a = ground arith
zero_loop_lem writable user (suc rounds) bytes memory a =
    elim (Bool-cases (writable (user + bytes))) [
      | inl w ↦ rw w (
          ground
            (arith, zero_loop_lem writable user rounds (bytes + 1) (put memory (user + bytes) 0) a))
      | inr w ↦ rw w (ground (arith, zero_loop_lem writable user rounds (bytes + 1) memory a))
    ]

-- A read of `count` bytes returns `count` and moves the file position by as much. It writes 0 at
-- each address among the `count` from `user` on that the program may write, and nowhere else.
read_zero_lem :
    (writable : ℕ → Bool) (user count offset : ℕ) (memory : ℕ → ℕ) (a : ℕ)
    → ((read_zero writable user count offset memory).status ≡ ok count)
      × ((read_zero writable user count offset memory).offset ≡ offset + count)
      × ((read_zero writable user count offset memory).memory a
          ≡ (if leb user a && ltb a (user + count) && writable a then 0 else memory a))
unfolding read_zero
read_zero_lem writable user count offset memory a =
    (refl, refl, ground (arith, zero_loop_lem writable user count 0 memory a))
