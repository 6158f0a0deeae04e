-- ===== src/Servers/ComplexServer.antt =====
-- The counter in a file of `Kernel Modules/hw6/complexserver/src/controller/MyController.hpp`, under any
-- number of requests at once. `stoi` and `to_text` are std::stoi, where `none` is an exception, and what
-- `operator<<` writes for an int. An int is the number from 0 to 2 ^ 32 - 1 that it is congruent to.
pub mod Invariant
pub mod Laws
pub mod Exceptions
use c_advanced_problems.Prelude.{
  ℕ, zero, suc, ◌+◌, ◌-◌, ◌%◌, Bool, Option, none, some, List, [], ◌∷◌, if◌then◌else◌, ◌==◌,
}
use c_advanced_problems.Sync.Interleaving.{System}

-- `counter.txt`, `none` where it does not exist; and the mutex, 1 where it is free. `count` is the number
-- that was last written, or that was in the file at first, which the code does not keep.
pub record Shared : Type 0 where
  pub file : Option (List ℕ)
  pub mutex : ℕ
  pub count : ℕ

-- Where a request stands in `fscounter`.
pub data Pc : Type 0 where
  lock : Pc  -- pthread_mutex_lock
  read : Pc  -- myfile, from open to the end of the loop
  write : (i : ℕ) → Pc  -- i++ and myfile2
  unlock : (i : ℕ) → Pc  -- pthread_mutex_unlock
  answered : (i : ℕ) → Pc  -- the response holds i
  threw : Pc  -- an exception of std::stoi has left fscounter
  overflowed : Pc  -- i++ beyond the largest int

abbrev push : (c : ℕ) → List (List ℕ) → List (List ℕ)
push c [] = (c ∷ []) ∷ []
push c (line ∷ lines) = (c ∷ line) ∷ lines

-- The lines that `getline` finds; 10 is the newline.
abbrev pub lines : List ℕ → List (List ℕ)
lines [] = []
lines (c ∷ text) = let rest = lines text in if c == 10 then [] ∷ rest else push c rest

module _ (stoi : List ℕ → Option ℕ) where
  -- `while (getline(myfile, line)) i = stoi(line)`
  abbrev pub last_number : (i : ℕ) → List (List ℕ) → Option ℕ
  last_number i [] = some i
  last_number i (line ∷ rest) = elim (stoi line) [ none ↦ none | some k ↦ last_number k rest ]

module _ (stoi : List ℕ → Option ℕ) (to_text : ℕ → List ℕ) (writable : Bool) where
  -- One statement; `none` where it waits for the mutex or has returned. `writable` is whether the file can
  -- be opened for writing.
  unfoldable pub step : Shared → Pc → Option (Shared × Pc)
  step m lock = if m.mutex == 0 then none else some (record m { mutex = m.mutex - 1 }, read)
  step m read = elim m.file [
    | none ↦ some (m, write 0)
    | some text ↦ elim (last_number stoi 0 (lines text)) [
      | none ↦ some (m, threw)
      | some i ↦ some (m, write i)
    ]
  ]
  step m (write i) =
      if i == 2147483647
      then some (m, overflowed)
      else some (
        if writable
            then record m {
              file = some (to_text ((i + 1) % 4294967296));
              count = (i + 1) % 4294967296;
            }
            else m,
        unlock ((i + 1) % 4294967296),
      )
  step m (unlock i) = some (record m { mutex = m.mutex + 1 }, answered i)
  step m (answered i) = none
  step m threw = none
  step m overflowed = none

-- The server, with what is in the file, and as many requests as there are threads.
abbrev pub start : (file : Option (List ℕ)) (count : ℕ) → System Shared Pc
start file count = record {
  shared = record { file = file; mutex = 1; count = count };
  pc = λ i. lock;
}

-- `memcounter`: the counter, and where a request stands.
pub data MemPc : Type 0 where
  increment : MemPc  -- i++
  load : MemPc  -- i.load() and sprintf
  responded : (i : ℕ) → MemPc

-- Both statements are atomic; the counter wraps around.
unfoldable pub mem_step : ℕ → MemPc → Option (ℕ × MemPc)
mem_step counter increment = some ((counter + 1) % 18446744073709551616, load)
mem_step counter load = some (counter, responded counter)
mem_step counter (responded i) = none

abbrev pub mem_start : System ℕ MemPc
mem_start = record { shared = 0; pc = λ i. increment }
