-- ===== src/Servers/AsyncServer.antt =====
-- `Multithreaded Server implementations/file-server-async.c`: the file server, with a second attempt by
-- asynchronous I/O where the file cannot be read.
pub mod Refusal
use c_advanced_problems.Prelude.{
  ℕ, ◌+◌, Bool, true, Option, none, some, List, [], ◌∷◌, ◌++◌, if◌then◌else◌, ◌==◌, set, drop,
}
use mathlib.Core.Option
use c_advanced_problems.Servers.Text.{string_at, strchr, filled, cut_line}
use c_advanced_problems.Servers.World
use c_advanced_problems.Servers.World.{
  World, Turn, Net, touch, clean_exit, close_client, send, ◌>>=◌,
}
use c_advanced_problems.Servers.Files
use c_advanced_problems.Servers.Files.{Opening}
use c_advanced_problems.Servers.FileServer.{error_message}

-- BUFFERSIZE
abbrev pub buffer_size : ℕ
buffer_size = 256

abbrev create_server : Net → Bool
create_server = World.create_server

abbrev read_from_file : Opening → Option (List ℕ)
read_from_file = Files.read_from_file

abbrev write_to_client : (message : List ℕ) → World → Option World
write_to_client = Files.write_to_client

-- The answers to `AsyncreadFromFile`: of the file system for a name or NULL; whether `open` returns 0;
-- whether `aio_read` returns something else than -1; the first answer of `aio_error` that is not
-- EINPROGRESS, for which the code waits; and what `aio_return` returns.
pub record Answers : Type 0 where
  pub opening : (name : Option (List ℕ)) → Opening
  pub open_zero : Bool
  pub started : Bool
  pub error : ℕ
  pub returned : ℕ

-- The pointer that `AsyncreadFromFile` returns: NULL, the block of `readFromFile`, or the array
-- `buffer` of its own frame.
pub data Loaded : Type 0 where
  null : Loaded
  block : (bytes : List ℕ) → Loaded
  frame : Loaded

-- The asynchronous part of `AsyncreadFromFile`.
aio_part : Answers → Loaded
aio_part a =
    if a.open_zero
    then null
    else if a.started
    then if a.error == 0 then (if a.returned == 0 then frame else null) else null
    else null

-- `AsyncreadFromFile(name)`
pub async_read : Answers → (name : Option (List ℕ)) → Loaded
async_read a name = elim (read_from_file (a.opening name)) [
  | none ↦ aio_part a
  | some bytes ↦ block bytes
]

-- `unlink(name)`, which fails for NULL.
abbrev unlink : (name : Option (List ℕ)) → World → World
unlink none w = w
unlink (some name) w = record w { unlinked = w.unlinked ++ name ∷ [] }

-- What `AsyncreadFromFile(name)` leaves behind.
async_effects : Answers → (name : Option (List ℕ)) → World → World
async_effects a name w = elim (read_from_file (a.opening name)) [
  | none ↦ unlink name (record w { streams = w.streams + Files.left_open (a.opening name) })
  | some bytes ↦ w
]

-- One client: whether `accept` succeeds, what `read` delivers, the answers above, and the memory
-- behind `inputBuffer`.
pub record Request : Type 0 where
  pub accepted : Bool
  pub received : Option (List ℕ)
  pub answers : Answers
  pub beyond_input : List ℕ

abbrev accept_client : Request → World → Option World
accept_client r w = do
  w₁ ← touch w
  if r.accepted then some (record w₁ { connected = true }) else clean_exit (close_client w₁)

abbrev receive : Request → World → Option World
receive r w = elim (r.received) [ none ↦ clean_exit (close_client w) | some bytes ↦ some w ]

-- `inputBuffer` behind the `read`.
abbrev input : Request → List ℕ
input r = filled buffer_size (elim (r.received) [ none ↦ [] | some bytes ↦ bytes ]) r.beyond_input

-- The string at `pos` once the line is cut off, or NULL: `pos`, not `path`, is passed on.
pub name_at_pos : (buffer : List ℕ) → Option (Option (List ℕ))
name_at_pos buffer = elim (strchr buffer b'\n') [
  | none ↦ some none
  | some i ↦ Option.map (λ s. some s) (string_at (drop i (set buffer i 0)))
]

-- What is done with the pointer that `AsyncreadFromFile` returns. The array of a frame that has been
-- left must not be read.
reply : Loaded → World → Option World
reply null w = do w₁ ← clean_exit (close_client (send error_message w)); some (close_client w₁)
reply (block bytes) w = do w₁ ← write_to_client bytes w; some (close_client w₁)
reply frame w = none

pub serve : Request → World → Option World
serve r w = do
  w₁ ← accept_client r w
  w₂ ← receive r w₁
  text ← string_at (input r)
  path ← string_at (cut_line (input r))
  name ← name_at_pos (input r)
  reply (async_read r.answers name) (async_effects r.answers name w₂)

-- `main`
abbrev pub main : Net → List (Turn Request) → Option World
main = World.main serve
