-- ===== src/Servers/Text.antt =====
-- C strings. Memory is the list of the bytes from a pointer on, as far as the program may read;
-- `none` stands for a read behind them.
pub mod Laws
use c_advanced_problems.Prelude.{
  ℕ, zero, suc, Option, none, some, List, [], ◌∷◌, ◌++◌, if◌then◌else◌, ◌==◌, ◌-◌, set, length,
  replicate,
}
use mathlib.Core.Option

-- The characters up to the NUL, which `strlen` counts and `%s` prints.
pub string_at : List ℕ → Option (List ℕ)
string_at [] = none
string_at (b ∷ bs) = if b == 0 then some [] else Option.map (λ s. b ∷ s) (string_at bs)

-- The position of the first `c` in front of the NUL.
pub strchr : List ℕ → (c : ℕ) → Option ℕ
strchr [] c = none
strchr (b ∷ bs) c = if b == c then some 0 else if b == 0 then none else Option.map suc (strchr bs c)

-- `bzero(buffer, size)` and `read(fd, buffer, size)`, where `bytes` are read and `beyond` is the memory
-- behind the buffer.
abbrev pub filled : (size : ℕ) → (bytes beyond : List ℕ) → List ℕ
filled size bytes beyond = bytes ++ (replicate (size - length bytes) 0 ++ beyond)

-- `if ((pos = strchr(pos, '\n')) != NULL) *pos = '\0';`
pub cut_line : List ℕ → List ℕ
cut_line buffer = elim (strchr buffer b'\n') [ none ↦ buffer | some i ↦ set buffer i 0 ]

abbrev pub concat : List (List ℕ) → List ℕ
concat [] = []
concat (xs ∷ xss) = xs ++ concat xss
