-- ===== src/Servers/Files.antt =====
-- `readFromFile` and `writeToClient` of the file servers. The answers of the file system are arguments.
use c_advanced_problems.Prelude.{
  ℕ, Bool, Option, none, some, List, [], ◌∷◌, ◌++◌, if◌then◌else◌, ◌==◌, length,
}
use c_advanced_problems.Servers.Text.{string_at}
use c_advanced_problems.Servers.World.{World, send}

-- What `fopen`, `ftell`, `malloc` and `fread` answer for one name.
pub data Opening : Type 0 where
  missing : Opening
  opened : (size : ℕ) → (granted : Bool) → (bytes : List ℕ) → Opening

-- The block that `readFromFile` returns, of the size of the file, or NULL.
unfoldable pub read_from_file : Opening → Option (List ℕ)
read_from_file missing = none
read_from_file (opened size granted bytes) =
    if granted then (if length bytes == size then some bytes else none) else none

-- How many streams it leaves open.
unfoldable pub left_open : Opening → ℕ
left_open missing = 0
left_open (opened size granted bytes) =
    if granted then (if length bytes == size then 0 else 1) else 1

-- `writeToClient`: `strlen(message) + 1` bytes of the memory that starts at `message`.
unfoldable pub write_to_client : (message : List ℕ) → World → Option World
write_to_client message w = elim (string_at message) [
  | none ↦ none
  | some text ↦ some (send (text ++ 0 ∷ []) w)
]
