-- ===== src/Servers/AsyncServer/Refusal.antt =====
-- The asynchronous file server never delivers a file.
use c_advanced_problems.Prelude.{
  ℕ, ◌≡◌, refl, ap, ◌∙◌, ◌⊎◌, inl, inr, true, Option, none, some, List, [], ◌∷◌, ◌++◌, set, drop,
  replicate, arith,
}
use mathlib.Core.Option
use c_advanced_problems.Servers.Text.{string_at, strchr, cut_line}
use c_advanced_problems.Servers.Text.Laws.{string_at-strchr}
use c_advanced_problems.Servers.World
use c_advanced_problems.Servers.World.{
  World, Turn, Net, start, create_server, clean_exit, close_client, send, ◌>>=◌, loop,
}
use c_advanced_problems.Servers.World.Doom.{
  IsDoomed, any->>=-IsDoomed, >>=-IsDoomed, clean_exit-IsDoomed, close_client-allocated,
  round-IsDoomed, loop-IsDoomed, idle, loop-idle,
}
use c_advanced_problems.Servers.Files.{missing, read_from_file}
use c_advanced_problems.Servers.FileServer.{error_message}
use c_advanced_problems.Servers.AsyncServer.{
  Answers, null, block, frame, Request, accept_client, receive, input, aio_part, async_read,
  name_at_pos, reply, serve, main,
}

-- Whatever the client asks for, the name that is opened, deleted and opened again is empty, where the
-- request has a newline, and otherwise NULL.
name_at_pos-empty :
    (buffer : List ℕ) → (name_at_pos buffer ≡ some none) ⊎ (name_at_pos buffer ≡ some (some []))
unfolding name_at_pos
name_at_pos-empty buffer = go (strchr buffer b'\n') refl
  where
    go :
        (o : Option ℕ)
        → strchr buffer b'\n' ≡ o
        → ((elim o [
          | none ↦ some none
          | some i ↦ Option.map (λ s. some s) (string_at (drop i (set buffer i 0)))
        ])
            ≡ some none)
          ⊎ ((elim o [
            | none ↦ some none
            | some i ↦ Option.map (λ s. some s) (string_at (drop i (set buffer i 0)))
          ])
              ≡ some (some []))
    go none e = inl refl
    go (some i) e = inr (rw (string_at-strchr buffer b'\n' i e) refl)

-- The asynchronous part delivers no block.
aio_part-null : (a : Answers) → (aio_part a ≡ null) ⊎ (aio_part a ≡ frame)
unfolding aio_part
aio_part-null a = ground arith

-- `fopen` refuses NULL and the empty name.
abbrev pub RefusesEmpty : Answers → Type 0
RefusesEmpty a = (a.opening none ≡ missing) × (a.opening (some []) ≡ missing)

reply-null : (w : World) → IsDoomed (reply null w)
unfolding reply
reply-null w =
    >>=-IsDoomed _ (λ w₁. some (close_client w₁))
      (clean_exit-IsDoomed (close_client (send error_message w)))
      (λ w₁ e. close_client-allocated w₁ ∙ e)

reply-frame : (w : World) → IsDoomed (reply frame w)
unfolding reply
reply-frame w = tt

async_read-refused :
    (a : Answers) (name : Option (List ℕ))
    → a.opening name ≡ missing
    → async_read a name ≡ aio_part a
unfolding async_read read_from_file
async_read-refused a name e =
    ap (λ o. elim (read_from_file o) [ none ↦ aio_part a | some bytes ↦ block bytes ]) e

-- Neither pointer that the asynchronous part returns leads to an answer that leaves the server alive.
refused-IsDoomed :
    (a : Answers) (name : Option (List ℕ)) (w : World)
    → a.opening name ≡ missing
    → IsDoomed (reply (async_read a name) w)
refused-IsDoomed a name w refused = elim (aio_part-null a) [
  | inl e ↦ simp (async_read-refused a name refused, e) (reply-null w)
  | inr e ↦ simp (async_read-refused a name refused, e) (reply-frame w)
]

serve-IsDoomed : (r : Request) (w : World) → RefusesEmpty r.answers → IsDoomed (serve r w)
unfolding serve
serve-IsDoomed r w (null_refused, empty_refused) = any->>=-IsDoomed (accept_client r w) _ (λ w₁.
    any->>=-IsDoomed (receive r w₁) _ (λ w₂. any->>=-IsDoomed (string_at (input r)) _ (λ text.
      any->>=-IsDoomed (string_at (cut_line (input r))) _ (λ path.
        elim (name_at_pos-empty (input r)) [
          | inl e ↦ simp e (refused-IsDoomed r.answers none _ null_refused)
          | inr e ↦ simp e (refused-IsDoomed r.answers (some []) _ empty_refused)
        ]))))

-- Where `fopen` refuses NULL and the empty name, the first client of the server is its last one: after
-- any number of idle rounds, whatever this client asks for and whatever the environment answers, the
-- next round, or the end of the loop, is undefined.
pub any_client-none :
    (net : Net) (n : ℕ) (r : Request) (t u : Turn Request) (rest : List (Turn Request))
    → create_server net ≡ true
    → t.ready ≡ true
    → RefusesEmpty t.request.answers
    → main net (replicate n (idle serve r) ++ t ∷ u ∷ rest) ≡ none
unfolding World.main
any_client-none net n r t u rest c ready refuses = simp c (
    loop-idle serve n r (t ∷ u ∷ rest) start refl refl
    ∙ loop-IsDoomed serve t u rest start
        (round-IsDoomed serve t start ready (λ w. serve-IsDoomed t.request w refuses)))
