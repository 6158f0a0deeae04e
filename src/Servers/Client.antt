-- ===== src/Servers/Client.antt =====
-- `Multithreaded Server implementations/file-server-client.c`. (`none`: undefined behaviour.)
use c_advanced_problems.Prelude.{
  ℕ, Bool, Option, none, some, List, [], ◌∷◌, ◌++◌, if◌then◌else◌, length, drop,
}
use mathlib.Core.Option
use c_advanced_problems.Servers.Text.{string_at}

-- What the client is answered by `createClient`, `connect`, `send` and `recv`, and the memory at
-- `buffer` before the call of `recv`.
pub record Connection : Type 0 where
  pub created : Bool
  pub connected : Bool
  pub sendable : Bool
  pub reply : Option (List ℕ)
  pub memory : List ℕ

pub data Outcome : Type 0 where
  usage : Outcome
  unconnected : Outcome
  unsent : Outcome
  received : (sent text : List ℕ) → Outcome

-- `send(client->descriptor, path, strlen(path) + 1, NULL)`
abbrev request : (path : List ℕ) → List ℕ
request path = path ++ 0 ∷ []

-- The memory at `buffer` behind the call of `recv`, whose answer is not tested.
abbrev received_into : Option (List ℕ) → List ℕ → List ℕ
received_into none memory = memory
received_into (some bytes) memory = bytes ++ drop (length bytes) memory

-- `main`, by the arguments behind the name of the program. Where `createClient` fails, it goes on with
-- the block that it has released.
unfoldable pub run : (arguments : List (List ℕ)) → Connection → Option Outcome
run [] c = some usage
run (path ∷ rest) c =
    if c.created
    then if c.connected
      then if c.sendable
        then Option.map (received (request path)) (string_at (received_into c.reply c.memory))
        else some unsent
      else some unconnected
    else none
