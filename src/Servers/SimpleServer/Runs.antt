-- ===== src/Servers/SimpleServer/Runs.antt =====
-- Whole runs of the greeting server for one client.
use c_advanced_problems.Prelude.{
  ℕ, zero, suc, ◌<◌, ◌≡◌, refl, ◌∙◌, true, none, some, List, [], ◌∷◌, ◌++◌, length, drop, replicate,
  arith,
}
use mathlib.Core.List.{append-nil, append_assoc}
use c_advanced_problems.Servers.Text.{string_at}
use c_advanced_problems.Servers.Text.Laws.{HasNoNul, string_at-nul}
use c_advanced_problems.Servers.SimpleServer.{
  cleared, Setup, Message, Session, returned, greeting, refilled, loop, empty, main,
}

drop-replicate :
    (k n : ℕ) (rest : List ℕ)
    → k < n
    → (tail : List ℕ) × (drop k (replicate n 0 ++ rest) ≡ 0 ∷ tail)
drop-replicate k zero rest h = absurd (omega (arith, h))
drop-replicate zero (suc n) rest h = (replicate n 0 ++ rest, refl)
drop-replicate (suc k) (suc n) rest h = drop-replicate k n rest (omega (arith, h))

-- A short message is printed as it is, whatever was in the buffer.
string_at-refilled :
    (bytes memory beyond : List ℕ)
    → HasNoNul bytes
    → length bytes < cleared
    → string_at (refilled bytes memory ++ beyond) ≡ some bytes
string_at-refilled bytes memory beyond text short =
    let (tail, e) = drop-replicate (length bytes) cleared (drop cleared memory) short in
    simp (e, append_assoc, string_at-nul, text)

-- Messages that are written without NULs and are shorter than what is cleared.
abbrev pub AreShort : List (List ℕ) → Type 0
AreShort [] = Unit
AreShort (bytes ∷ rest) = HasNoNul bytes × ((length bytes < cleared) × AreShort rest)

-- A message that is answered.
abbrev pub answered : List ℕ → Message
answered bytes = record { received = some bytes; written = true }

-- The answers.
abbrev pub greetings : List (List ℕ) → List (List ℕ)
greetings [] = []
greetings (bytes ∷ rest) = greeting ∷ greetings rest

abbrev pub map_answered : List (List ℕ) → List Message
map_answered [] = []
map_answered (bytes ∷ rest) = answered bytes ∷ map_answered rest

loop-answers :
    (texts : List (List ℕ)) (rest : List Message) (beyond memory : List ℕ) (s : Session)
    → AreShort texts
    → (memory' : List ℕ) × (loop beyond (map_answered texts ++ rest) memory s
        ≡ loop beyond rest memory'
            (record { printed = s.printed ++ texts; sent = s.sent ++ greetings texts }))
unfolding loop
loop-answers [] rest beyond memory s h = (memory, simp append-nil)
loop-answers (bytes ∷ texts) rest beyond memory s (text, (short, h)) =
    let s₁ : Session = record {
      printed = s.printed ++ bytes ∷ [];
      sent = s.sent ++ greeting ∷ [];
    } in
    let (memory', e) = loop-answers texts rest beyond (refilled bytes memory) s₁ h in
    (memory', simp (string_at-refilled bytes memory beyond text short) (e ∙ simp append_assoc))

loop-failed :
    (m : Message) (rest : List Message) (beyond memory : List ℕ) (s : Session)
    → m.received ≡ none
    → loop beyond (m ∷ rest) memory s ≡ some (returned s)
unfolding loop
loop-failed m rest beyond memory s failed = simp failed

-- Once the server is up, each message of less than 256 bytes and without a NUL is printed as it was sent
-- and answered with the greeting, whatever the uninitialised buffer held; the first `read` that fails ends the program,
-- whatever would follow.
pub simple_main-answers :
    (u : Setup) (texts : List (List ℕ)) (m : Message) (rest : List Message)
    → u.socket ≡ true
    → u.bind ≡ true
    → u.listen ≡ true
    → u.accepted ≡ true
    → AreShort texts
    → m.received ≡ none
    → main u (map_answered texts ++ m ∷ rest)
      ≡ some (returned (record { printed = texts; sent = greetings texts }))
unfolding main
simple_main-answers u texts m rest socket bind listen accepted h failed =
    let (memory', e) = loop-answers texts (m ∷ rest) u.beyond u.memory empty h in
    simp (socket, bind, listen, accepted)
      (e
        ∙ loop-failed m rest u.beyond memory' (record { printed = texts; sent = greetings texts })
            failed)
