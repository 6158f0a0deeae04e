-- ===== src/Driver/HelloCounted.antt =====
-- `Kernel Modules/hw5/modules/hello_counted/hello_counted.c`: a greeting that tells how many bytes
-- have been read. The counter lies in a block that `driver_open` allocates, and one pointer to it
-- serves all open files. What `kmalloc` returns is an argument of `driver_open`.
pub mod Text
pub mod Session
use c_advanced_problems.Prelude.{
  ℕ, zero, suc, ◌+◌, ◌/◌, ◌%◌, ◌^◌, Option, none, some, List, [], ◌∷◌, ◌++◌, if◌then◌else◌, leb,
  ltb, length, take, ◌==◌,
}
use c_advanced_problems.Prelude.Tally.{put}
use c_advanced_problems.Driver.Kernel.{Status, ok, Kernel, Call, Run}
use c_advanced_problems.Driver.User.{codes, Reply, sub64}
use c_advanced_problems.Driver.Checked.{checked_init, checked_exit}

-- `ModInit`
abbrev pub mod_init : Kernel → Run
mod_init = checked_init "hello_counted"

-- `ModExit`
abbrev pub mod_exit : List Call
mod_exit = checked_exit

-- The global pointer, and the kernel's blocks: `none` at an address that is not allocated.
pub record State : Type 0 where
  pub counted : ℕ
  pub block : ℕ → Option ℕ

-- A handler's new state and result; `none` is a use or a release of a block that is not allocated.
abbrev pub Step : Type 0 → Type 0
Step A = State → Option (State × A)

-- `fresh` is what `kmalloc` returns, `none` for NULL, which is written through without a test.
unfoldable pub driver_open : (fresh : Option ℕ) → Step Status
driver_open none s = none
driver_open (some fresh) s =
    some (record s { counted = fresh; block = put s.block fresh (some 0) }, ok 0)

unfoldable pub driver_close : Step Status
driver_close s = elim (s.block s.counted) [
  | none ↦ none
  | some n ↦ some (record s { block = put s.block s.counted none }, ok 0)
]

-- `%d` of a number that is not negative, for at most `fuel` digits
pub decimal : ℕ → ℕ → List ℕ
decimal zero n = []
decimal (suc fuel) n =
    let front = decimal fuel (n / 10) in
    let rest = front ++ (n % 10 + b'0') ∷ [] in if ltb n 10 then (n + b'0') ∷ [] else rest

-- The text that `sprintf` writes, less the NUL. An `int` has at most ten digits.
pub text : ℕ → List ℕ
text n =
    codes "Hello from grp20. You have read "
    ++ (decimal 10 n ++ (codes " bytes so far." ++ 10 ∷ []))

-- The copy that `read_hello` makes of `to_copy` bytes of the text: the counter is an `int`.
copy_text : (ℕ → ℕ) → (to_copy offset n : ℕ) → State → State × Reply
copy_text copy to_copy offset n s =
    let done = sub64 to_copy (copy to_copy) in
    (
      record s { block = put s.block s.counted (some ((n + done) % 2 ^ 32)) },
      record { bytes = take done (text n); offset = offset + done; status = ok done },
    )

-- `read_hello` from the `sprintf` on, where the counter holds `n`.
pub read_text : (ℕ → ℕ) → (count offset n : ℕ) → State → State × Reply
unfolding copy_text
read_text copy count offset n s =
    let to_copy = length (text n) in
    if leb to_copy offset
    then (s, record { bytes = []; offset = offset; status = ok 0 })
    else copy_text copy (if ltb count to_copy then count else to_copy) offset n s

unfoldable pub read_hello : (ℕ → ℕ) → (count offset : ℕ) → Step Reply
read_hello copy count offset s = elim (s.block s.counted) [
  | none ↦ none
  | some n ↦ some (read_text copy count offset n s)
]
