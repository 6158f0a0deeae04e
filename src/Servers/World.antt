-- ===== src/Servers/World.antt =====
-- The loop of `file-server.c`, `file-server-async.c`, `file-server-signals.c` and `select-server.c`, less
-- what is done with a client. The answers of the operating system are arguments: `Net` for those of
-- `createServer`, and a `Turn` for each round of the loop. `none` stands for undefined behaviour: the
-- use or the release of a block that is not allocated, or a read behind a buffer.
pub mod Doom
use c_advanced_problems.Prelude.{
  ℕ, ◌+◌, Bool, true, false, Option, none, some, List, [], ◌∷◌, ◌++◌, if◌then◌else◌,
}

infixl 5 ◌>>=◌
abbrev pub ◌>>=◌ {ℓ κ} : {A : Type ℓ} {B : Type κ} → Option A → (A → Option B) → Option B
none >>= f = none
some a >>= f = f a

-- `allocated`: the block `server`. `running`: `notdone`, or `!eflag`. `connected`: the descriptor of
-- the client is open. `sent` and `unlinked`: what was written to clients, and the names of the files
-- that were deleted, in order. `streams`: files that are left open.
pub record World : Type 0 where
  pub allocated : Bool
  pub running : Bool
  pub connected : Bool
  pub bad_closes : ℕ
  pub streams : ℕ
  pub sent : List (List ℕ)
  pub unlinked : List (List ℕ)

-- Once `malloc` has granted the block.
abbrev pub start : World
start = record {
  allocated = true;
  running = true;
  connected = false;
  bad_closes = 0;
  streams = 0;
  sent = [];
  unlinked = [];
}

-- What `createServer` is answered; it releases nothing where it fails.
pub record Net : Type 0 where
  pub socket : Bool
  pub bind : Bool
  pub listen : Bool

-- `createServer`: whether it returns 0.
abbrev pub create_server : Net → Bool
create_server n = if n.socket then (if n.bind then n.listen else false) else false

-- A use of `server->descriptor`.
abbrev pub touch : World → Option World
touch w = if w.allocated then some w else none

-- `cleanExit`, which does not exit.
abbrev pub clean_exit : World → Option World
clean_exit w = if w.allocated then some (record w { allocated = false }) else none

-- `close(clientFiledescriptor)`
abbrev pub close_client : World → World
close_client w =
    if w.connected
    then record w { connected = false }
    else record w { bad_closes = w.bad_closes + 1 }

-- `write`, whose answer is not used.
abbrev pub send : List ℕ → World → World
send message w = record w { sent = w.sent ++ message ∷ [] }

-- One round: whether `select` succeeds, and which descriptors it reports.
pub record Turn (R : Type 0) : Type 0 where
  pub selected : Bool
  pub stdin : Bool
  pub ready : Bool
  pub request : R

abbrev pub selecting : {R : Type 0} → Turn R → World → Option World
selecting t w = if t.selected then some w else clean_exit w

-- `if (FD_ISSET(0, &readfds)) notdone = 0;`
abbrev pub noticing : {R : Type 0} → Turn R → World → World
noticing t w = if t.stdin then record w { running = false } else w

module _ {R : Type 0} (serve : R → World → Option World) where
  unfoldable pub round : Turn R → World → Option World
  round t w = do
    w₁ ← touch w
    w₂ ← selecting t w₁
    w₃ ← touch (noticing t w₂)
    if t.ready then serve t.request w₃ else some w₃

  -- The loop and the `cleanExit` behind it; with no further round it waits in `select`.
  unfoldable pub loop : List (Turn R) → World → Option World
  loop [] w = some w
  loop (t ∷ ts) w = elim (round t w) [
    | none ↦ none
    | some w' ↦ if w'.running then loop ts w' else clean_exit w'
  ]

  -- `main`, which goes on where `createServer` fails.
  unfoldable pub main : Net → List (Turn R) → Option World
  main net ts = do w ← if create_server net then some start else clean_exit start; loop ts w
