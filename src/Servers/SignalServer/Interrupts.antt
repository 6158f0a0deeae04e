-- ===== src/Servers/SignalServer/Interrupts.antt =====
-- SIGINT, while the server waits and while it does not.
use c_advanced_problems.Prelude.{
  ℕ, zero, suc, ◌≡◌, refl, ap, ◌∙◌, true, false, Option, none, some, List, ◌∷◌, ◌++◌, if◌then◌else◌,
  replicate,
}
use c_advanced_problems.Servers.Text.{string_at}
use c_advanced_problems.Servers.World
use c_advanced_problems.Servers.World.{World, Turn, Net, start, ◌>>=◌, create_server, clean_exit}
use c_advanced_problems.Servers.World.Doom.{round-refused}
use c_advanced_problems.Servers.SignalServer.{
  Info, Signalled, serve, quiet, log_message, handler, round, finish, loop, main,
}

-- A round in which `select` returns and neither a client nor a signal is there.
abbrev pub quiet_round : Signalled → Turn Signalled
quiet_round s = record {
  selected = true;
  stdin = false;
  ready = false;
  request = record s { interrupted = false };
}

-- Where `info` is printed.
abbrev pub IsText : List ℕ → Type 0
IsText memory = (text : List ℕ) × (string_at memory ≡ some text)

loop-step :
    (info : Info) (t : Turn Signalled) (ts : List (Turn Signalled)) (w : World) (o : Option World)
    → round info t w ≡ o
    → loop info (t ∷ ts) w
      ≡ (elim o [ none ↦ none | some v ↦ if v.running then loop info ts v else finish info v ])
unfolding loop
loop-step info t ts w o e =
    ap (λ p. elim p [ none ↦ none | some v ↦ if v.running then loop info ts v else finish info v ])
      e

log_message-text :
    (memory : List ℕ) (w : World)
    → IsText memory
    → w.allocated ≡ true
    → log_message (some memory) w ≡ some w
unfolding log_message
log_message-text memory w (text, e) a = simp (e, a)

round-quiet :
    (memory : List ℕ) (s : Signalled)
    → IsText memory
    → round (some memory) (quiet_round s) start ≡ some start
unfolding round World.round
round-quiet memory s h = rw (log_message-text memory start h refl) refl

loop-quiet :
    (memory : List ℕ) (n : ℕ) (s : Signalled) (rest : List (Turn Signalled))
    → IsText memory
    → loop (some memory) (replicate n (quiet_round s) ++ rest) start ≡ loop (some memory) rest start
loop-quiet memory zero s rest h = refl
loop-quiet memory (suc n) s rest h =
    loop-step (some memory) (quiet_round s) _ start (some start) (round-quiet memory s h)
    ∙ loop-quiet memory n s rest h

round-interrupted :
    (info : Info) (t : Turn Signalled) (w : World) → t.selected ≡ false → round info t w ≡ none
unfolding round
round-interrupted info t w interrupted = go (log_message info w)
  where
    go :
        (o : Option World)
        → (o >>= (λ w₁.
            World.round serve (quiet t) w₁ >>= (λ w₂. some (handler t.request.interrupted w₂))))
          ≡ none
    go none = refl
    go (some w₁) = rw (round-refused serve (quiet t) w₁ interrupted) refl

-- Where `createServer` succeeds, `info` holds a string and `select` fails after any number of rounds
-- without a client, as it does where SIGINT interrupts it, the server uses its block after its release.
pub interrupted_select-none :
    (net : Net) (memory : List ℕ) (n : ℕ) (s : Signalled) (t : Turn Signalled)
    (rest : List (Turn Signalled))
    → create_server net ≡ true
    → IsText memory
    → t.selected ≡ false
    → main net (some memory) (replicate n (quiet_round s) ++ t ∷ rest) ≡ none
unfolding main
interrupted_select-none net memory n s t rest c h interrupted = simp c (
    loop-quiet memory n s (t ∷ rest) h
    ∙ loop-step (some memory) t rest start none
        (round-interrupted (some memory) t start interrupted))

-- The same, with SIGINT once `select` has returned.
abbrev pub ending : Signalled → Turn Signalled
ending s = record (quiet_round s) { request = record s { interrupted = true } }

round-ending :
    (memory : List ℕ) (s : Signalled)
    → IsText memory
    → round (some memory) (ending s) start ≡ some (record start { running = false })
unfolding round World.round
round-ending memory s h = rw (log_message-text memory start h refl) refl

loop-ending :
    (memory : List ℕ) (s : Signalled) (rest : List (Turn Signalled))
    → IsText memory
    → loop (some memory) (ending s ∷ rest) start
      ≡ some (record start { allocated = false; running = false })
loop-ending memory s rest h =
    loop-step (some memory) _ rest start (some (record start { running = false }))
      (round-ending memory s h)
    ∙ ap (λ o. o >>= clean_exit) (log_message-text memory (record start { running = false }) h refl)

-- Where `select` returns in each round, no client comes, and SIGINT is handled outside `select`, the
-- server ends, and both of its blocks are released once.
signal_between-released :
    (net : Net) (memory : List ℕ) (n : ℕ) (s s' : Signalled) (rest : List (Turn Signalled))
    → create_server net ≡ true
    → IsText memory
    → main net (some memory) (replicate n (quiet_round s) ++ ending s' ∷ rest)
      ≡ some (record start { allocated = false; running = false })
unfolding main
signal_between-released net memory n s s' rest c h =
    simp c (loop-quiet memory n s (ending s' ∷ rest) h ∙ loop-ending memory s' rest h)
