-- ===== src/Servers/FileServer.antt =====
-- `Multithreaded Server implementations/file-server.c`: the client sends the name of a file and is sent
-- its content. (What is printed is not modelled, and `(null)` is taken to be printed for NULL.)
pub mod Runs
pub mod Failures
use c_advanced_problems.Prelude.{
  ℕ, ◌+◌, Bool, true, Option, none, some, List, [], ◌∷◌, ◌++◌, if◌then◌else◌,
}
use c_advanced_problems.Driver.User.{codes}
use c_advanced_problems.Servers.Text.{string_at, filled, cut_line}
use c_advanced_problems.Servers.World
use c_advanced_problems.Servers.World.{
  World, Turn, Net, touch, clean_exit, close_client, send, ◌>>=◌,
}
use c_advanced_problems.Servers.Files.{Opening, read_from_file, left_open, write_to_client}

-- BUFFERSIZE
abbrev pub buffer_size : ℕ
buffer_size = 4096

-- One client: whether `accept` succeeds, what `read` delivers, what the file system holds, and the
-- memory behind `inputBuffer`.
pub record Request : Type 0 where
  pub accepted : Bool
  pub received : Option (List ℕ)
  pub opening : (name : List ℕ) → Opening
  pub beyond_input : List ℕ

abbrev pub accept_client : Request → World → Option World
accept_client r w = do
  w₁ ← touch w
  if r.accepted then some (record w₁ { connected = true }) else clean_exit (close_client w₁)

abbrev pub receive : Request → World → Option World
receive r w = elim (r.received) [ none ↦ clean_exit (close_client w) | some bytes ↦ some w ]

-- `inputBuffer` behind the `read`.
abbrev pub input : Request → List ℕ
input r = filled buffer_size (elim (r.received) [ none ↦ [] | some bytes ↦ bytes ]) r.beyond_input

-- "Error while reading file\n", with its NUL.
abbrev pub error_message : List ℕ
error_message = codes "Error while reading file" ++ 10 ∷ 0 ∷ []

-- From `readFromFile` on, where it returns NULL, and where it returns a block: `strlen` must find a NUL
-- in the block, which is none but that of the file's bytes.
unfoldable pub reply : Option (List ℕ) → World → Option World
reply none w = do w₁ ← clean_exit (close_client (send error_message w)); some (close_client w₁)
reply (some bytes) w = do w₁ ← write_to_client bytes w; some (close_client w₁)

-- The answer to a client that asks for the file `name`.
unfoldable pub answer : Request → (name : List ℕ) → World → Option World
answer r name w =
    reply (read_from_file (r.opening name))
      (record w { streams = w.streams + left_open (r.opening name) })

-- The name is read from the buffer once its first line is cut off.
unfoldable pub serve : Request → World → Option World
serve r w = do
  w₁ ← accept_client r w
  w₂ ← receive r w₁
  text ← string_at (input r)
  name ← string_at (cut_line (input r))
  answer r name w₂

-- `main`
abbrev pub main : Net → List (Turn Request) → Option World
main = World.main serve
