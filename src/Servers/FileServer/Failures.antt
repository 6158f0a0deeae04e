-- ===== src/Servers/FileServer/Failures.antt =====
-- What the file server comes to once something has failed.
use c_advanced_problems.Prelude.{
  ℕ, ◌<◌, ◌≡◌, refl, ap, sym, subst, ◌∙◌, ◌⊎◌, inl, inr, true, false, Option, none, some, List, [],
  ◌∷◌, ◌++◌, length, Option-cases, arith,
}
use c_advanced_problems.Servers.Text.{string_at, cut_line}
use c_advanced_problems.Servers.Text.Laws.{
  HasNoNul, line, string_at-none, string_at-cut_line, string_at-filled,
}
use c_advanced_problems.Servers.World
use c_advanced_problems.Servers.World.{
  World, Turn, Net, start, round, loop, create_server, touch, clean_exit, close_client, send,
  selecting, noticing, ◌>>=◌,
}
use c_advanced_problems.Servers.World.Doom.{
  IsDoomed, KeepsDoom, any->>=-IsDoomed, >>=-IsDoomed, clean_exit-IsDoomed, close_client-allocated,
  round-refused, round-IsDoomed, loop-released, loop-IsDoomed,
}
use c_advanced_problems.Servers.Files.{opened, read_from_file, left_open, write_to_client}
use c_advanced_problems.Servers.FileServer.{
  Request, buffer_size, error_message, accept_client, receive, input, reply, answer, serve, main,
}
use c_advanced_problems.Servers.FileServer.Runs.{Served, serving, loop-Served}

reply-missing : (w : World) → IsDoomed (reply none w)
unfolding reply
reply-missing w =
    >>=-IsDoomed _ (λ w₁. some (close_client w₁))
      (clean_exit-IsDoomed (close_client (send error_message w)))
      (λ w₁ e. close_client-allocated w₁ ∙ e)

reply-KeepsDoom : (file : Option (List ℕ)) → KeepsDoom (reply file)
unfolding reply write_to_client
reply-KeepsDoom none w e = reply-missing w
reply-KeepsDoom (some bytes) w e = go (string_at bytes)
  where
    go :
        (o : Option (List ℕ))
        → IsDoomed (
            (elim o [ none ↦ none | some text ↦ some (send (text ++ 0 ∷ []) w) ])
            >>= (λ w₁. some (close_client w₁)))
    go none = tt
    go (some text) = close_client-allocated _ ∙ e

-- What makes a request fail.
abbrev pub RequestFails : Request → Type 0
RequestFails r =
    (r.accepted ≡ false)
    ⊎ ((r.received ≡ none)
        ⊎ ((bytes : List ℕ) × (r.received ≡ some bytes)
            × (length bytes < buffer_size)
            × (read_from_file (r.opening (line bytes)) ≡ none)))

abbrev pub Fails : Turn Request → Type 0
Fails t = (t.selected ≡ false) ⊎ ((t.ready ≡ true) × RequestFails t.request)

-- `serve` from the parsing of the request on.
abbrev parse_and_answer : Request → World → Option World
parse_and_answer r w = do
  text ← string_at (input r)
  name ← string_at (cut_line (input r))
  answer r name w

parse_and_answer-KeepsDoom : (r : Request) → KeepsDoom (parse_and_answer r)
unfolding answer
parse_and_answer-KeepsDoom r w e = any->>=-IsDoomed (string_at (input r)) _ (λ text.
    any->>=-IsDoomed (string_at (cut_line (input r))) _
      (λ name. reply-KeepsDoom (read_from_file (r.opening name)) _ e))

-- What is done with a client that is accepted.
abbrev attend : Request → World → Option World
attend r w = receive r w >>= parse_and_answer r

attend-silent : (r : Request) (w : World) → r.received ≡ none → IsDoomed (attend r w)
attend-silent r w nothing =
    >>=-IsDoomed _ (parse_and_answer r)
      (subst (λ o. IsDoomed (elim o [ none ↦ clean_exit (close_client w) | some bytes ↦ some w ]))
        (sym nothing) (clean_exit-IsDoomed (close_client w)))
      (parse_and_answer-KeepsDoom r)

attend-heard :
    (r : Request) (bytes : List ℕ) (w : World)
    → r.received ≡ some bytes
    → attend r w ≡ parse_and_answer r w
attend-heard r bytes w heard =
    ap
      (λ o.
        (elim o [ none ↦ clean_exit (close_client w) | some bs ↦ some w ]) >>= parse_and_answer r)
      heard

attend-KeepsDoom : (r : Request) → KeepsDoom (attend r)
attend-KeepsDoom r w e = elim (Option-cases r.received) [
  | inl nothing ↦ attend-silent r w nothing
  | inr (bytes, heard) ↦
      subst IsDoomed (sym (attend-heard r bytes w heard)) (parse_and_answer-KeepsDoom r w e)
]

accept_client-refused :
    (r : Request) (w : World) → r.accepted ≡ false → IsDoomed (accept_client r w)
accept_client-refused r w refused =
    any->>=-IsDoomed (touch w) _ (λ w₁. simp refused (clean_exit-IsDoomed (close_client w₁)))

attend-missing :
    (r : Request) (bytes : List ℕ) (w : World)
    → r.received ≡ some bytes
    → length bytes < buffer_size
    → read_from_file (r.opening (line bytes)) ≡ none
    → IsDoomed (attend r w)
unfolding answer
attend-missing r bytes w heard short missing =
    let (whole, e) = string_at-filled buffer_size bytes r.beyond_input short in
    let cut = string_at-cut_line buffer_size bytes r.beyond_input short in
    subst IsDoomed (sym (attend-heard r bytes w heard))
      (simp (heard, e, cut, missing) (reply-missing _))

serve-IsDoomed : (r : Request) (w : World) → RequestFails r → IsDoomed (serve r w)
unfolding serve
serve-IsDoomed r w (inl refused) =
    >>=-IsDoomed _ (attend r) (accept_client-refused r w refused) (attend-KeepsDoom r)
serve-IsDoomed r w (inr (inl nothing)) =
    any->>=-IsDoomed (accept_client r w) (attend r) (λ w₁. attend-silent r w₁ nothing)
serve-IsDoomed r w (inr (inr (bytes, heard, short, missing))) =
    any->>=-IsDoomed (accept_client r w) (attend r)
      (λ w₁. attend-missing r bytes w₁ heard short missing)

round-Fails : (t : Turn Request) (w : World) → Fails t → IsDoomed (round serve t w)
round-Fails t w (inl refused) = rw (round-refused serve t w refused) tt
round-Fails t w (inr (ready, fails)) =
    round-IsDoomed serve t w ready (λ v. serve-IsDoomed t.request v fails)

-- Whatever clients were served before, a round whose `select`, `accept` or `read` fails, or whose file
-- is missing or cannot be read, leads to the use or the second release of the released block by the
-- end of the next round, whatever happens in it, because `cleanExit` does not exit.
pub main-Fails :
    (net : Net) {past : List (Turn Request)} {texts : List (List ℕ)} (t u : Turn Request)
    (rest : List (Turn Request))
    → create_server net ≡ true
    → Served past texts
    → Fails t
    → main net (past ++ t ∷ u ∷ rest) ≡ none
unfolding World.main
main-Fails net t u rest c s f =
    rw c (loop-Served [] _ s ∙ loop-IsDoomed serve t u rest _ (round-Fails t _ f))

-- Where `createServer` fails, `main` releases the block and goes on to use it.
main-refused :
    (net : Net) (t : Turn Request) (rest : List (Turn Request))
    → create_server net ≡ false
    → main net (t ∷ rest) ≡ none
unfolding World.main
main-refused net t rest c = simp c (loop-released serve t rest _ refl)

-- A file without a NUL.
answer-unterminated :
    (r : Request) (name content : List ℕ) (w : World)
    → r.opening name ≡ opened (length content) true content
    → string_at content ≡ none
    → answer r name w ≡ none
unfolding answer reply read_from_file left_open write_to_client
answer-unterminated r name content w e t = ground (arith, e, t)

serve-unterminated :
    (r : Request) (bytes content : List ℕ) (w : World)
    → r.accepted ≡ true
    → r.received ≡ some bytes
    → length bytes < buffer_size
    → r.opening (line bytes) ≡ opened (length content) true content
    → HasNoNul content
    → w.allocated ≡ true
    → serve r w ≡ none
unfolding serve
serve-unterminated r bytes content w accepted received short found no_nul a =
    let (whole, e) = string_at-filled buffer_size bytes r.beyond_input short in
    let cut = string_at-cut_line buffer_size bytes r.beyond_input short in
    simp
      (
        a,
        accepted,
        received,
        e,
        cut,
        answer-unterminated r (line bytes) content _ found (string_at-none content no_nul),
      )
      (rw (received, receive, ◌>>=◌) refl)

-- Where `createServer` succeeds, and whatever clients were served before, a client that is accepted and
-- whose request is shorter than 4096 bytes and names in its first line a file that can be read and has no
-- NUL makes the server read behind the block that
-- `readFromFile` returns, which has the size of the file and no NUL of its own.
pub main-unterminated :
    (net : Net) {past : List (Turn Request)} {texts : List (List ℕ)} (r : Request)
    (bytes content : List ℕ) (rest : List (Turn Request))
    → create_server net ≡ true
    → Served past texts
    → r.accepted ≡ true
    → r.received ≡ some bytes
    → length bytes < buffer_size
    → r.opening (line bytes) ≡ opened (length content) true content
    → HasNoNul content
    → main net (past ++ record { selected = true; stdin = false; ready = true; request = r } ∷ rest)
      ≡ none
unfolding World.main loop round
main-unterminated net {texts = texts} r bytes content rest c s accepted received short found
      no_nul =
    rw c (
      loop-Served [] _ s
      ∙ rw
          (
            loop,
            round,
            serve-unterminated r bytes content (serving texts) accepted received short found no_nul
                refl,
          )
          refl)
