-- ===== src/Servers/SignalServer.antt =====
-- `Multithreaded Server implementations/file-server-signals.c`: the asynchronous file server, which is
-- to end on SIGINT and prints the block `info` in each round. `allocated` stands for both blocks.
pub mod Interrupts
use c_advanced_problems.Prelude.{
  ℕ, Bool, true, false, Option, none, some, List, [], ◌∷◌, if◌then◌else◌,
}
use c_advanced_problems.Servers.Text.{string_at}
use c_advanced_problems.Servers.World
use c_advanced_problems.Servers.World.{World, Turn, Net, start, touch, ◌>>=◌}
use c_advanced_problems.Servers.Files
use c_advanced_problems.Servers.Files.{Opening}
use c_advanced_problems.Servers.AsyncServer
use c_advanced_problems.Servers.AsyncServer.{Request, Answers, Loaded}

-- BUFFERSIZE
abbrev buffer_size : ℕ
buffer_size = AsyncServer.buffer_size

abbrev create_server : Net → Bool
create_server = World.create_server

-- `cleanExit`, which releases `info` and `server`.
abbrev clean_exit : World → Option World
clean_exit = World.clean_exit

abbrev read_from_file : Opening → Option (List ℕ)
read_from_file = Files.read_from_file

abbrev async_read : Answers → (name : Option (List ℕ)) → Loaded
async_read = AsyncServer.async_read

abbrev write_to_client : (message : List ℕ) → World → Option World
write_to_client = Files.write_to_client

abbrev serve : Request → World → Option World
serve = AsyncServer.serve

-- A request, and whether SIGINT is handled in its round.
pub record Signalled : Type 0 where
  pub interrupted : Bool
  pub request : Request

-- The memory from `info` on, or none where `malloc` has returned NULL. The block is never written.
abbrev Info : Type 0
Info = Option (List ℕ)

-- `log_message`
pub log_message : Info → World → Option World
log_message none w = none
log_message (some memory) w = do w₁ ← touch w; text ← string_at memory; some w₁

-- `handler`, which sets `eflag`.
abbrev handler : Bool → World → World
handler interrupted w = if interrupted then record w { running = false } else w

-- The rest of the round; a key sets `notdone`, which is not read.
abbrev quiet : Turn Signalled → Turn Request
quiet t = record {
  selected = t.selected;
  stdin = false;
  ready = t.ready;
  request = t.request.request;
}

pub round : Info → Turn Signalled → World → Option World
round info t w = do
  w₁ ← log_message info w
  w₂ ← World.round serve (quiet t) w₁
  some (handler t.request.interrupted w₂)

-- What follows the loop.
abbrev finish : Info → World → Option World
finish info w = do w₁ ← log_message info w; clean_exit w₁

pub loop : Info → List (Turn Signalled) → World → Option World
loop info [] w = some w
loop info (t ∷ ts) w = elim (round info t w) [
  | none ↦ none
  | some w' ↦ if w'.running then loop info ts w' else finish info w'
]

pub main : Net → Info → List (Turn Signalled) → Option World
main net info ts = do w ← if create_server net then some start else clean_exit start; loop info ts w
