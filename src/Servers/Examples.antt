-- ===== src/Servers/Examples.antt =====
-- The servers at small inputs.
use c_advanced_problems.Servers.ComplexServer.{
  lock, responded, mem_step, mem_start, step as fs_step, start as fs_start,
}
use c_advanced_problems.Servers.ComplexServer.Invariant.{IsOneLine, answers}
use c_advanced_problems.Servers.ComplexServer.Laws.{ended, fscounter-answers}
use c_advanced_problems.Servers.ComplexServer.Exceptions.{exception-blocks}
use c_advanced_problems.Prelude.Tally.{tally}
use c_advanced_problems.Sync.Interleaving.{run, turn}
use c_advanced_problems.Prelude.{
  ℕ, zero, suc, ap, dec_lt, ◌≡◌, refl, inr, true, false, Option, none, some, List, [], ◌∷◌, ◌++◌,
  ◌==◌, if◌then◌else◌, length, replicate, length-replicate, arith,
}
use c_advanced_problems.Driver.HelloCounted.{decimal}
use c_advanced_problems.Driver.HelloCounted.Text.{length-decimal}
use c_advanced_problems.Servers.Text.{string_at, filled, cut_line}
use c_advanced_problems.Servers.Text.Laws.{line, string_at-cut_line, string_at-nul}
use c_advanced_problems.Servers.World.{Net, Turn, start}
use c_advanced_problems.Servers.World.Doom.{idle}
use c_advanced_problems.Servers.Files.{Opening, missing, opened, read_from_file}
use c_advanced_problems.Servers.Client
use mathlib.Core.Option
use c_advanced_problems.Servers.FileServer
use c_advanced_problems.Servers.FileServer.Runs.{over, client, IsServed, main-Served}
use c_advanced_problems.Servers.FileServer.Failures.{main-Fails, main-unterminated}
use c_advanced_problems.Servers.AsyncServer
use c_advanced_problems.Servers.AsyncServer.Refusal.{any_client-none}
use c_advanced_problems.Servers.SignalServer
use c_advanced_problems.Servers.SignalServer.Interrupts.{quiet_round, interrupted_select-none}
use c_advanced_problems.Servers.SelectServer
use c_advanced_problems.Servers.SelectServer.Runs.{session, select_main-greets}
use c_advanced_problems.Servers.EasyServer
use c_advanced_problems.Servers.EasyServer.Report.{report}
use c_advanced_problems.Servers.EasyServer.Runs
use c_advanced_problems.Servers.EasyServer.Runs.{IsReported, easy_main-reports}
use c_advanced_problems.Servers.SimpleServer
use c_advanced_problems.Servers.SimpleServer.Runs.{map_answered, simple_main-answers}

abbrev granting : Net
granting = record { socket = true; bind = true; listen = true }

-- "hi"
abbrev hi : List ℕ
hi = 104 ∷ 105 ∷ []

-- A directory in which each name of one letter is a file with this content and a NUL.
abbrev one_letter : List ℕ → Opening
one_letter name = if length name == 1 then opened 3 true (hi ++ 0 ∷ []) else missing

-- "a", a newline, and what is behind the first line.
abbrev asks : (name : List ℕ) → FileServer.Request
asks name = record {
  accepted = true;
  received = some (name ++ 10 ∷ 7 ∷ []);
  opening = one_letter;
  beyond_input = [];
}

string_at-cut_line_example :
    string_at (cut_line (filled 256 (97 ∷ 10 ∷ 7 ∷ []) [])) ≡ some (97 ∷ [])
unfolding line
string_at-cut_line_example = string_at-cut_line 256 (97 ∷ 10 ∷ 7 ∷ []) [] (omega arith)

asks-IsServed : IsServed (asks (97 ∷ [])) hi
unfolding line
asks-IsServed = record {
  accepted = refl;
  bytes = 97 ∷ 10 ∷ 7 ∷ [];
  received = refl;
  short = omega arith;
  content = hi ++ 0 ∷ [];
  found = refl;
  terminated = string_at-nul hi [] (refl, (refl, tt));
}

abbrev asking : (name : List ℕ) → Turn FileServer.Request
asking name = record { selected = true; stdin = false; ready = true; request = asks name }

abbrev key : Turn FileServer.Request
key = record { selected = true; stdin = true; ready = false; request = asks [] }

main-Served_example :
    FileServer.main granting (asking (97 ∷ []) ∷ key ∷ [])
    ≡ some (record start { allocated = false; running = false; sent = (hi ++ 0 ∷ []) ∷ [] })
main-Served_example =
    main-Served granting (asks []) refl (client (asks (97 ∷ [])) hi asks-IsServed over)

-- A client asks for a file that is not there, and then the key is pressed.
main-Fails_example :
    FileServer.main granting (asking (97 ∷ []) ∷ asking (97 ∷ 98 ∷ []) ∷ key ∷ []) ≡ none
unfolding line read_from_file
main-Fails_example =
    main-Fails granting (asking (97 ∷ 98 ∷ [])) key [] refl
      (client (asks (97 ∷ [])) hi asks-IsServed over)
      (inr (refl, inr (inr (97 ∷ 98 ∷ 10 ∷ 7 ∷ [], refl, omega arith, refl))))

-- The client, of a server that answers "hi".
abbrev answered_hi : Client.Connection
answered_hi = record {
  created = true;
  connected = true;
  sendable = true;
  reply = some (hi ++ 0 ∷ []);
  memory = 7 ∷ 7 ∷ 7 ∷ 7 ∷ [];
}

client_prints : Client.run ((97 ∷ []) ∷ []) answered_hi ≡ some (Client.received (97 ∷ 0 ∷ []) hi)
unfolding Client.run
client_prints =
    ap (Option.map (Client.received (97 ∷ 0 ∷ []))) (string_at-nul hi (7 ∷ []) (refl, (refl, tt)))

client_unconnected :
    Client.run ((97 ∷ []) ∷ []) (record answered_hi { connected = false }) ≡ some Client.unconnected
unfolding Client.run
client_unconnected = refl

-- The second client asks for a file without a NUL.
abbrev asks_unterminated : FileServer.Request
asks_unterminated = record (asks (97 ∷ [])) { opening = λ name. opened 2 true hi }

main-unterminated_example :
    FileServer.main granting (
      asking (97 ∷ [])
      ∷ record { selected = true; stdin = false; ready = true; request = asks_unterminated }
      ∷ [])
    ≡ none
unfolding line
main-unterminated_example =
    main-unterminated granting asks_unterminated (97 ∷ 10 ∷ 7 ∷ []) hi [] refl
      (client (asks (97 ∷ [])) hi asks-IsServed over) refl refl (omega arith) refl
      (refl, (refl, tt))

-- No file is opened by the empty name or NULL, whatever there is.
abbrev named : Option (List ℕ) → Opening
named none = missing
named (some name) = one_letter name

abbrev async_asks : AsyncServer.Request
async_asks = record {
  accepted = true;
  received = some (97 ∷ 10 ∷ []);
  answers = record { opening = named; open_zero = false; started = true; error = 9; returned = 0 };
  beyond_input = [];
}

abbrev async_turn : Turn AsyncServer.Request
async_turn = record { selected = true; stdin = false; ready = true; request = async_asks }

any_client-none_example :
    AsyncServer.main granting
      (idle AsyncServer.serve async_asks ∷ async_turn ∷ idle AsyncServer.serve async_asks ∷ [])
    ≡ none
any_client-none_example =
    any_client-none granting 1 async_asks async_turn (idle AsyncServer.serve async_asks) [] refl
      refl (refl, refl)

abbrev unsignalled : SignalServer.Signalled
unsignalled = record { interrupted = false; request = async_asks }

-- SIGINT in the second round, while the server waits.
abbrev interrupted_turn : Turn SignalServer.Signalled
interrupted_turn = record {
  selected = false;
  stdin = false;
  ready = false;
  request = record { interrupted = true; request = async_asks };
}

interrupted_select-none_example :
    SignalServer.main granting (some (0 ∷ [])) (quiet_round unsignalled ∷ interrupted_turn ∷ [])
    ≡ none
interrupted_select-none_example =
    interrupted_select-none granting (0 ∷ []) 1 unsignalled interrupted_turn [] refl
      ([], string_at-nul [] [] tt) refl

select_main-greets_example :
    SelectServer.main granting (
      session (some hi ∷ none ∷ some [] ∷ [])
      ++ record {
        selected = true;
        stdin = true;
        ready = false;
        request = record { accepted = false; received = none; written = false };
      }
        ∷ [])
    ≡ some (record start {
      allocated = false;
      running = false;
      sent = SelectServer.greeting ∷ SelectServer.greeting ∷ [];
    })
select_main-greets_example =
    select_main-greets granting (some hi ∷ none ∷ some [] ∷ [])
      (record { accepted = false; received = none; written = false }) refl

-- At most twenty digits.
abbrev digits : ℕ → List ℕ
digits = decimal 20

abbrev machine : EasyServer.Info
machine = record { uptime = 5; procs = 2; totalram = 9; freeram = 4; mem_unit = 1 }

abbrev visitor : EasyServer.Client
visitor = record {
  listening = true;
  accepted = true;
  received = some (hi ++ 0 ∷ []);
  info = some machine;
  name = some hi;
  beyond = [];
}

visitor-IsReported : IsReported digits visitor (report digits machine hi)
visitor-IsReported = record {
  listening = refl;
  accepted = refl;
  bytes = hi;
  received = refl;
  info = machine;
  informed = refl;
  machine = record {
    uptime = omega arith;
    procs = omega arith;
    totalram = omega arith;
    freeram = omega arith;
    mem_unit = omega arith;
  };
  name = hi;
  named = refl;
  short = omega arith;
  reported = refl;
}

abbrev fresh : EasyServer.Server
fresh = record { rx = []; tx = replicate 2048 0; sent = [] }

easy_main-reports_example :
    (s : EasyServer.Server) × (EasyServer.main digits
        (visitor ∷ record visitor { accepted = false } ∷ [])
        fresh
      ≡ some (EasyServer.exited s))
    × (s.sent ≡ report digits machine hi ∷ [])
easy_main-reports_example =
    easy_main-reports digits (record visitor { accepted = false }) [] fresh
      (λ n h. length-decimal 20 n)
      (Runs.client visitor (report digits machine hi) visitor-IsReported Runs.over)
      (length-replicate {A = ℕ} 2048 0) (inr refl)

abbrev ready : SimpleServer.Setup
ready = record {
  socket = true;
  bind = true;
  listen = true;
  accepted = true;
  memory = 1 ∷ 2 ∷ 3 ∷ 4 ∷ [];
  beyond = [];
}

simple_main-answers_example :
    SimpleServer.main ready
      (map_answered (hi ∷ [] ∷ []) ++ record { received = none; written = true } ∷ [])
    ≡ some (
        SimpleServer.returned (record {
          printed = hi ∷ [] ∷ [];
          sent = SimpleServer.greeting ∷ SimpleServer.greeting ∷ [];
        }))
simple_main-answers_example =
    simple_main-answers ready (hi ∷ [] ∷ []) (record { received = none; written = true }) [] refl
      refl refl refl ((refl, (refl, tt)), (omega arith, (tt, (omega arith, tt)))) refl

-- A number as so many bytes, and one more.
abbrev further : ℕ → List ℕ
further zero = []
further (suc i) = 49 ∷ further i

abbrev in_ones : ℕ → List ℕ
in_ones i = 49 ∷ further i

abbrev count_ones : List ℕ → Option ℕ
count_ones [] = none
count_ones (c ∷ text) = some (length text)

length-further : (i : ℕ) → length (further i) ≡ i
length-further zero = refl
length-further (suc i) = omega (arith, length-further i)

further-IsOneLine : (i : ℕ) → IsOneLine (further i)
further-IsOneLine zero = tt
further-IsOneLine (suc i) = (omega arith, further-IsOneLine i)

-- Two requests at once, with 5 in the file.
fscounter-answers_example :
    ((ended count_ones in_ones 2 5 (0 ∷ 1 ∷ [])).shared.file ≡ some (in_ones 7))
    × (tally (answers 6) 2 (ended count_ones in_ones 2 5 (0 ∷ 1 ∷ [])).pc ≡ 1)
fscounter-answers_example =
    fscounter-answers count_ones in_ones 2 5 (0 ∷ 1 ∷ []) (λ i h. ap some (length-further i))
      (λ i. λ e. cc) (λ i. (omega arith, further-IsOneLine i)) (omega arith) 6

-- The file holds the letter a.
exception-blocks_example :
    ((run (fs_step (λ _. none) in_ones true) 2 (0 ∷ 0 ∷ 1 ∷ []) (fs_start (some (97 ∷ [])) 0)).pc 1
      ≡ lock)
    × (fs_step
          (λ _. none)
          in_ones
          true
          (run
            (fs_step (λ _. none) in_ones true)
            2
            (0 ∷ 0 ∷ 1 ∷ [])
            (fs_start (some (97 ∷ [])) 0)).shared
          ((run
              (fs_step (λ _. none) in_ones true)
              2
              (0 ∷ 0 ∷ 1 ∷ [])
              (fs_start (some (97 ∷ [])) 0)).pc
            1)
        ≡ none)
unfolding run turn fs_step dec_lt
exception-blocks_example =
    exception-blocks (λ _. none) in_ones true (97 ∷ []) 2 0 (0 ∷ 0 ∷ 1 ∷ []) refl 0 1 (omega arith)
      (omega arith) (λ e. absurd (omega (arith, e))) refl

-- Both requests for the counter in memory are told 2.
mem_duplicate :
    ((run mem_step 2 (0 ∷ 1 ∷ 0 ∷ 1 ∷ []) mem_start).pc 0 ≡ responded 2)
    × ((run mem_step 2 (0 ∷ 1 ∷ 0 ∷ 1 ∷ []) mem_start).pc 1 ≡ responded 2)
unfolding run turn mem_step dec_lt
mem_duplicate = (refl, refl)
