-- ===== src/Driver/User.antt =====
-- The border between a driver and the programs that read and write its device: what a read hands
-- over, and a program that reads to the end of the file. `copy_to_user` and `copy_from_user` are
-- arguments of the drivers: of `n` bytes asked for, `copy n` are not copied.
use Prim.Native.String.{String}
use Prim.Native.Char.{code}
use c_advanced_problems.Prelude.{
  ℕ, zero, suc, ◌+◌, ◌-◌, ◌%◌, ◌^◌, Bool, true, false, List, [], ◌∷◌, ◌++◌, if◌then◌else◌,
}
use c_advanced_problems.Driver.Kernel.{Status, ok, err}

-- The bytes of a text.
abbrev pub codes : String → List ℕ
codes String.[] = []
codes (String.◌∷◌ c s) = code c ∷ codes s

-- What a read hands to the caller: the bytes, the new file position and the returned value.
pub record Reply : Type 0 where
  pub bytes : List ℕ
  pub offset : ℕ
  pub status : Status

-- a - b and a + b on `unsigned long`
abbrev pub sub64 : ℕ → ℕ → ℕ
sub64 a b = (a + 2 ^ 64 - b) % 2 ^ 64

-- A copy that leaves no byte out.
abbrev pub all_copied : ℕ → ℕ
all_copied n = 0

abbrev pub is_end : Status → Bool
is_end (ok zero) = true
is_end (ok (suc n)) = false
is_end (err e) = true

-- `while ((n = read(fd, buffer, count)) > 0) ...`, for at most `fuel` calls.
unfoldable pub drain : (read : ℕ → Reply) → (fuel offset : ℕ) → List ℕ
drain read zero offset = []
drain read (suc fuel) offset =
    let r = read offset in
    let rest = r.bytes ++ drain read fuel r.offset in if is_end r.status then [] else rest

-- `xs` again and again, `n` times.
abbrev pub copies : ℕ → List ℕ → List ℕ
copies zero xs = []
copies (suc n) xs = xs ++ copies n xs
