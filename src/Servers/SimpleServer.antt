-- ===== src/Servers/SimpleServer.antt =====
-- `Multithreaded Server implementations/simple-server.c`: one client, whose every message is answered
-- with the same word. (`none`: undefined behaviour.)
pub mod Runs
use c_advanced_problems.Prelude.{
  ℕ, ◌*◌, Bool, Option, none, some, List, [], ◌∷◌, ◌++◌, if◌then◌else◌, length, drop, replicate,
}
use c_advanced_problems.Driver.User.{codes}
use c_advanced_problems.Servers.Text.{string_at}
use c_advanced_problems.Servers.World.{◌>>=◌}

-- `sizeof(buffer)`, of 256 pointers.
abbrev buffer_size : ℕ
buffer_size = 256 * 8

-- What `bzero` clears of it.
abbrev pub cleared : ℕ
cleared = 256

-- The answers of `socket`, `bind`, `listen` and `accept`; the buffer, which is not initialised, and the
-- memory behind it.
pub record Setup : Type 0 where
  pub socket : Bool
  pub bind : Bool
  pub listen : Bool
  pub accepted : Bool
  pub memory : List ℕ
  pub beyond : List ℕ

-- What `read` delivers, and whether `write` succeeds.
pub record Message : Type 0 where
  pub received : Option (List ℕ)
  pub written : Bool

-- What was printed of the messages, and what was sent.
pub record Session : Type 0 where
  pub printed : List (List ℕ)
  pub sent : List (List ℕ)

-- Waiting for a message, or behind `return -1`.
pub data Status : Type 0 where
  waiting : Session → Status
  returned : Session → Status

-- "hello" with its NUL.
abbrev pub greeting : List ℕ
greeting = codes "hello" ++ 0 ∷ []

-- The buffer behind `bzero` and `read`.
abbrev pub refilled : (bytes memory : List ℕ) → List ℕ
refilled bytes memory = bytes ++ drop (length bytes) (replicate cleared 0 ++ drop cleared memory)

-- The loop, once a client is accepted.
pub loop : (beyond : List ℕ) → List Message → (memory : List ℕ) → Session → Option Status
loop beyond [] memory s = some (waiting s)
loop beyond (m ∷ ms) memory s = elim (m.received) [
  | none ↦ some (returned s)
  | some bytes ↦ string_at (refilled bytes memory ++ beyond) >>= (λ text.
      if m.written
      then loop beyond ms (refilled bytes memory)
          (record { printed = s.printed ++ text ∷ []; sent = s.sent ++ greeting ∷ [] })
      else some (returned (record s { printed = s.printed ++ text ∷ [] })))
]

abbrev pub empty : Session
empty = record { printed = []; sent = [] }

-- `main`
pub main : Setup → List Message → Option Status
main u ms =
    if u.socket
    then if u.bind
      then if u.listen
        then if u.accepted then loop u.beyond ms u.memory empty else some (returned empty)
        else some (returned empty)
      else some (returned empty)
    else some (returned empty)
