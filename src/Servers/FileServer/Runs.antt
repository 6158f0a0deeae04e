-- ===== src/Servers/FileServer/Runs.antt =====
-- Whole runs of the file server.
use c_advanced_problems.Prelude.{
  ℕ, ◌<◌, ◌≡◌, refl, ap, ◌∙◌, true, false, some, List, [], ◌∷◌, ◌++◌, length, arith,
}
use mathlib.Core.List.{append-nil, append_assoc}
use c_advanced_problems.Servers.Text.{string_at}
use c_advanced_problems.Servers.Text.Laws.{line, string_at-cut_line, string_at-filled}
use c_advanced_problems.Servers.World
use c_advanced_problems.Servers.World.{
  World, Turn, Net, start, close_client, send, ◌>>=◌, round, loop, create_server,
}
use c_advanced_problems.Servers.Files.{opened, read_from_file, left_open, write_to_client}
use c_advanced_problems.Servers.FileServer.{
  Request, receive, buffer_size, reply, answer, serve, main,
}

-- The client is accepted, its request leaves room for a NUL, and the file that its first line names is
-- read; it holds a NUL, and `text` is what is in front of the first one.
pub record IsServed (r : Request) (text : List ℕ) : Type 0 where
  pub accepted : r.accepted ≡ true
  pub bytes : List ℕ
  pub received : r.received ≡ some bytes
  pub short : length bytes < buffer_size
  pub content : List ℕ
  pub found : r.opening (line bytes) ≡ opened (length content) true content
  pub terminated : string_at content ≡ some text

-- The content of a file that is read, sent up to its first NUL.
answer-opened :
    (r : Request) (name content text : List ℕ) (w : World)
    → r.opening name ≡ opened (length content) true content
    → string_at content ≡ some text
    → answer r name w ≡ some (close_client (send (text ++ 0 ∷ []) w))
unfolding answer reply read_from_file left_open write_to_client
answer-opened r name content text w e t = ground (arith, e, t)

pub serve-IsServed :
    (r : Request) (text : List ℕ) (w : World)
    → IsServed r text
    → w.allocated ≡ true
    → serve r w ≡ some (record w { connected = false; sent = w.sent ++ (text ++ 0 ∷ []) ∷ [] })
unfolding serve
serve-IsServed r text w s a =
    let (whole, e) = string_at-filled buffer_size s.bytes r.beyond_input s.short in
    let cut = string_at-cut_line buffer_size s.bytes r.beyond_input s.short in
    simp
      (
        a,
        s.accepted,
        s.received,
        e,
        cut,
        answer-opened r (line s.bytes) s.content text _ s.found s.terminated,
      )
      (rw (s.received, receive, ◌>>=◌) refl)

-- The rounds of a run in which nothing fails, with what they send.
pub data Served : List (Turn Request) → List (List ℕ) → Type 0 where
  over : Served [] []
  idle :
      {ts : List (Turn Request)} {texts : List (List ℕ)} (r : Request)
      → Served ts texts
      → Served (record { selected = true; stdin = false; ready = false; request = r } ∷ ts) texts
  client :
      {ts : List (Turn Request)} {texts : List (List ℕ)} (r : Request) (text : List ℕ)
      → IsServed r text
      → Served ts texts
      → Served
          (record { selected = true; stdin = false; ready = true; request = r } ∷ ts)
          ((text ++ 0 ∷ []) ∷ texts)

-- The server is up, and no client is connected.
abbrev pub serving : List (List ℕ) → World
serving texts = record start { sent = texts }

pub loop-Served :
    {ts : List (Turn Request)} {texts : List (List ℕ)} (past : List (List ℕ))
    (rest : List (Turn Request))
    → Served ts texts
    → loop serve (ts ++ rest) (serving past) ≡ loop serve rest (serving (past ++ texts))
unfolding loop round
loop-Served past rest over = rw append-nil refl
loop-Served past rest (idle r s) = loop-Served past rest s
loop-Served past rest (client r text i s) =
    rw (serve-IsServed r text (serving past) i refl, loop, round)
      (loop-Served (past ++ (text ++ 0 ∷ []) ∷ []) rest s
        ∙ ap (λ t. loop serve rest (serving t)) (append_assoc past ((text ++ 0 ∷ []) ∷ []) _))

-- Where `createServer` succeeds and, until a key is pressed, each `select`, `accept` and `read` succeeds, each
-- request is shorter than 4096 bytes and names in its first line a file that can be read and that holds a
-- NUL: each client is sent the bytes of its file in front of the first NUL, and a NUL, in order; at the
-- end the block of the server is released once, no descriptor of a client is left open or closed twice,
-- and no stream of a file is left open.
pub main-Served :
    (net : Net) {ts : List (Turn Request)} {texts : List (List ℕ)} (r : Request)
    → create_server net ≡ true
    → Served ts texts
    → main net (ts ++ record { selected = true; stdin = true; ready = false; request = r } ∷ [])
      ≡ some (record start { allocated = false; running = false; sent = texts })
unfolding World.main loop round
main-Served net r c s = rw c (loop-Served [] _ s)
