-- ===== src/Driver/Hello/Drain.antt =====
-- A program that reads the greeting to its end, as `cat` does.
use c_advanced_problems.Prelude.{ℕ, zero, suc, ◌+◌, ◌*◌, ◌≤◌, ◌<◌, ◌≡◌, ap, [], ◌++◌, arith, take}
use c_advanced_problems.Driver.Hello.{hello, read_hello}
use c_advanced_problems.Driver.User.{all_copied, sub64, drain, copies}
use c_advanced_problems.Driver.Kernel.{ok}

-- A read below the end of the greeting, with a buffer no longer than it.
read_hello-short :
    (count offset : ℕ)
    → count ≤ 21
    → offset < 21
    → read_hello all_copied count offset
      ≡ record { bytes = take count hello; offset = offset + count; status = ok count }
unfolding read_hello
read_hello-short count offset short lo = ground (arith, size count short)
  where
    size : (n : ℕ) → n ≤ 21 → sub64 n 0 ≡ n
    size n h = omega arith

read_hello-end :
    (count offset : ℕ)
    → 21 ≤ offset
    → read_hello all_copied count offset ≡ record { bytes = []; offset = offset; status = ok 0 }
unfolding read_hello
read_hello-end count offset h = ground arith

-- With a buffer of at most 21 bytes the program gets the first `count` bytes of the greeting again
-- and again, as often as the file position takes to reach 21: a read moves the position forward, and
-- still copies from the start of the array.
pub drain-copies :
    (count k offset : ℕ)
    → 0 < count
    → count ≤ 21
    → 21 ≤ offset + k * count
    → offset + k * count < 21 + count
    → drain (read_hello all_copied count) (suc k) offset ≡ copies k (take count hello)
unfolding drain
drain-copies count zero offset pos short lo hi = rw (read_hello-end count offset (omega arith))
drain-copies zero (suc k) offset pos short lo hi = absurd (omega arith)
drain-copies (suc c) (suc k) offset pos short lo hi =
    rw (read_hello-short (suc c) offset short (grind arith)) (
      ap (λ t. take (suc c) hello ++ t)
        (drain-copies (suc c) k (offset + suc c) pos short (omega arith) (omega arith)))

-- With a buffer of 21 bytes or more it gets the greeting once, and then the end of the file.
drain-whole : (count : ℕ) → 21 ≤ count → drain (read_hello all_copied count) 2 0 ≡ hello
unfolding drain read_hello
drain-whole count h = ground arith
