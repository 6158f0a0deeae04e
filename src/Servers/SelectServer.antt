-- ===== src/Servers/SelectServer.antt =====
-- `Multithreaded Server implementations/select-server.c`: each client is sent the same greeting.
pub mod Runs
use c_advanced_problems.Prelude.{
  ℕ, Bool, true, false, Option, none, some, List, [], ◌∷◌, ◌++◌, if◌then◌else◌,
}
use c_advanced_problems.Driver.User.{codes}
use c_advanced_problems.Servers.World
use c_advanced_problems.Servers.World.{World, Turn, Net, touch, close_client, send, ◌>>=◌}
use c_advanced_problems.Servers.Files
use c_advanced_problems.Servers.Files.{Opening}

abbrev create_server : Net → Bool
create_server = World.create_server

abbrev clean_exit : World → Option World
clean_exit = World.clean_exit

-- `readFromFile`, which is not called.
abbrev read_from_file : Opening → Option (List ℕ)
read_from_file = Files.read_from_file

-- One client: whether `accept`, `read` and `write` succeed. What it has sent is not used.
pub record Request : Type 0 where
  pub accepted : Bool
  pub received : Option (List ℕ)
  pub written : Bool

-- The seven bytes of "hallo\n".
abbrev pub greeting : List ℕ
greeting = codes "hallo" ++ 10 ∷ 0 ∷ []

abbrev accept_client : Request → World → Option World
accept_client r w = do
  w₁ ← touch w
  if r.accepted then some (record w₁ { connected = true }) else clean_exit w₁

abbrev receive : Request → World → Option World
receive r w = elim (r.received) [ none ↦ clean_exit w | some bytes ↦ some w ]

abbrev greet : Request → World → Option World
greet r w = if r.written then some (send greeting w) else clean_exit w

pub serve : Request → World → Option World
serve r w = do w₁ ← accept_client r w; w₂ ← receive r w₁; w₃ ← greet r w₂; some (close_client w₃)

-- `main`
abbrev pub main : Net → List (Turn Request) → Option World
main = World.main serve
