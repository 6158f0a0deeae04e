-- ===== src/Servers/SelectServer/Runs.antt =====
-- Runs of the greeting server.
use c_advanced_problems.Prelude.{
  ℕ, ◌≡◌, refl, sym, subst, ap, ◌∙◌, ◌⊎◌, inl, inr, true, false, Option, none, some, List, [], ◌∷◌,
  ◌++◌, Bool-cases,
}
use mathlib.Core.List.{append-nil, append_assoc}
use c_advanced_problems.Servers.World
use c_advanced_problems.Servers.World.{
  World, Turn, Net, start, touch, clean_exit, close_client, send, ◌>>=◌, create_server, round, loop,
}
use c_advanced_problems.Servers.World.Doom.{
  IsDoomed, KeepsDoom, any->>=-IsDoomed, >>=-IsDoomed, clean_exit-IsDoomed, close_client-allocated,
  round-refused, round-IsDoomed, loop-IsDoomed,
}
use c_advanced_problems.Servers.SelectServer.{
  Request, greeting, accept_client, receive, greet, serve, main,
}

-- Rounds in which nothing fails: a client that sends the given bytes, or none.
abbrev pub session : List (Option (List ℕ)) → List (Turn Request)
session [] = []
session (bytes ∷ rest) =
    record {
      selected = true;
      stdin = false;
      ready = elim bytes [ none ↦ false | some bs ↦ true ];
      request = record { accepted = true; received = bytes; written = true };
    }
    ∷ session rest

-- What they send.
abbrev pub greetings : List (Option (List ℕ)) → List (List ℕ)
greetings [] = []
greetings (none ∷ rest) = greetings rest
greetings (some bytes ∷ rest) = greeting ∷ greetings rest

abbrev serving : List (List ℕ) → World
serving texts = record start { sent = texts }

loop-session :
    (past : List (List ℕ)) (clients : List (Option (List ℕ))) (rest : List (Turn Request))
    → loop serve (session clients ++ rest) (serving past)
      ≡ loop serve rest (serving (past ++ greetings clients))
unfolding loop round serve
loop-session past [] rest = rw append-nil refl
loop-session past (none ∷ clients) rest = loop-session past clients rest
loop-session past (some bytes ∷ clients) rest =
    loop-session (past ++ greeting ∷ []) clients rest
    ∙ ap (λ t. loop serve rest (serving t)) (append_assoc past (greeting ∷ []) (greetings clients))

-- Where `createServer` succeeds and nothing fails until a key is pressed, each client is sent the seven
-- bytes of the greeting, whatever it has sent; at the end the block of the server is released once, and
-- no descriptor of a client is left open or closed twice.
pub select_main-greets :
    (net : Net) (clients : List (Option (List ℕ))) (r : Request)
    → create_server net ≡ true
    → main net (
        session clients
        ++ record { selected = true; stdin = true; ready = false; request = r } ∷ [])
      ≡ some (record start { allocated = false; running = false; sent = greetings clients })
unfolding World.main loop round
select_main-greets net clients r c = simp c (loop-session [] clients _)

-- What makes a round fail.
abbrev pub RequestFails : Request → Type 0
RequestFails r = (r.accepted ≡ false) ⊎ ((r.received ≡ none) ⊎ (r.written ≡ false))

abbrev pub Fails : Turn Request → Type 0
Fails t = (t.selected ≡ false) ⊎ ((t.ready ≡ true) × RequestFails t.request)

-- `serve` once the client is accepted, and once its request is read.
abbrev after_read : Request → World → Option World
after_read r w = greet r w >>= (λ v. some (close_client v))

abbrev after_accept : Request → World → Option World
after_accept r w = receive r w >>= after_read r

greet-KeepsDoom : (r : Request) → KeepsDoom (greet r)
greet-KeepsDoom r w e = elim (Bool-cases r.written) [
  | inl h ↦ simp h e
  | inr h ↦ simp h (clean_exit-IsDoomed w)
]

after_read-KeepsDoom : (r : Request) → KeepsDoom (after_read r)
after_read-KeepsDoom r w e =
    >>=-IsDoomed (greet r w) _ (greet-KeepsDoom r w e) (λ v d. close_client-allocated v ∙ d)

receive-KeepsDoom : (r : Request) → KeepsDoom (receive r)
receive-KeepsDoom r w e = go r.received
  where
    go : (o : Option (List ℕ)) → IsDoomed (elim o [ none ↦ clean_exit w | some bytes ↦ some w ])
    go none = clean_exit-IsDoomed w
    go (some bytes) = e

after_accept-KeepsDoom : (r : Request) → KeepsDoom (after_accept r)
after_accept-KeepsDoom r w e =
    >>=-IsDoomed (receive r w) (after_read r) (receive-KeepsDoom r w e) (after_read-KeepsDoom r)

receive-IsDoomed : (r : Request) (w : World) → r.received ≡ none → IsDoomed (receive r w)
receive-IsDoomed r w nothing =
    subst (λ o. IsDoomed (elim o [ none ↦ clean_exit w | some bytes ↦ some w ])) (sym nothing)
      (clean_exit-IsDoomed w)

serve-IsDoomed : (r : Request) (w : World) → RequestFails r → IsDoomed (serve r w)
unfolding serve
serve-IsDoomed r w (inl refused) =
    >>=-IsDoomed (accept_client r w) (after_accept r)
      (any->>=-IsDoomed (touch w) _ (λ v. simp refused (clean_exit-IsDoomed v)))
      (after_accept-KeepsDoom r)
serve-IsDoomed r w (inr (inl nothing)) = any->>=-IsDoomed (accept_client r w) (after_accept r) (λ v.
    >>=-IsDoomed (receive r v) (after_read r) (receive-IsDoomed r v nothing)
      (after_read-KeepsDoom r))
serve-IsDoomed r w (inr (inr unwritten)) =
    any->>=-IsDoomed (accept_client r w) (after_accept r) (λ v.
      any->>=-IsDoomed (receive r v) (after_read r) (λ u.
        >>=-IsDoomed (greet r u) _ (simp unwritten (clean_exit-IsDoomed u))
          (λ x d. close_client-allocated x ∙ d)))

round-Fails : (t : Turn Request) (w : World) → Fails t → IsDoomed (round serve t w)
round-Fails t w (inl refused) = rw (round-refused serve t w refused) tt
round-Fails t w (inr (ready, fails)) =
    round-IsDoomed serve t w ready (λ v. serve-IsDoomed t.request v fails)

-- Whatever clients were greeted before, a `select`, `accept`, `read` or `write` that fails leads to the
-- use or the second release of the released block by the end of the next round.
select_main-Fails :
    (net : Net) (clients : List (Option (List ℕ))) (t u : Turn Request) (rest : List (Turn Request))
    → create_server net ≡ true
    → Fails t
    → main net (session clients ++ t ∷ u ∷ rest) ≡ none
unfolding World.main
select_main-Fails net clients t u rest c f =
    simp c
      (loop-session [] clients (t ∷ u ∷ rest) ∙ loop-IsDoomed serve t u rest _ (round-Fails t _ f))
