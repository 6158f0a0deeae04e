-- ===== src/Servers/EasyServer/Runs.antt =====
-- Whole runs of `easy_server.c`.
use c_advanced_problems.Prelude.{
  ℕ, ◌<◌, ◌≡◌, refl, sym, ap, ◌∙◌, ◌⊎◌, inl, inr, true, false, some, List, [], ◌∷◌, ◌++◌, length,
  take, drop, Bool-cases,
}
use mathlib.Core.List.{append-nil, append_assoc}
use c_advanced_problems.Servers.Text.Laws.{string_at-some}
use c_advanced_problems.Servers.EasyServer.{
  buffer_size, Info, Client, Server, exited, received_into, attend, main,
}
use c_advanced_problems.Servers.EasyServer.Report.{IsDecimal, IsInfo, report, print_info-report}

module _ (decimal : ℕ → List ℕ) where
  -- A client that is accepted and whose request ends with a NUL, on a system that answers.
  pub record IsReported (c : Client) (text : List ℕ) : Type 0 where
    pub listening : c.listening ≡ true
    pub accepted : c.accepted ≡ true
    pub bytes : List ℕ
    pub received : c.received ≡ some (bytes ++ 0 ∷ [])
    pub info : Info
    pub informed : c.info ≡ some info
    pub machine : IsInfo info
    pub name : List ℕ
    pub named : c.name ≡ some name
    pub short : length name < 255
    pub reported : report decimal info name ≡ text

  attend-report :
      (c : Client) (text : List ℕ) (s : Server)
      → IsDecimal decimal
      → IsReported c text
      → length s.tx ≡ buffer_size
      → (s' : Server) × (attend decimal c s ≡ some s')
        × (s'.sent ≡ s.sent ++ text ∷ [])
        × (length s'.tx ≡ buffer_size)
  unfolding attend
  attend-report c text s d r whole =
      let (t, printed, h) =
        print_info-report decimal r.info r.name s.tx d r.machine r.short whole in
      let (request, found) =
        string_at-some r.bytes (drop (length (r.bytes ++ 0 ∷ [])) s.rx ++ c.beyond) in
      (
        record {
          rx = received_into c.received s.rx;
          tx = t.memory;
          sent = s.sent ++ take t.size t.memory ∷ [];
        },
        simp (r.received, append_assoc, found, r.informed, r.named, printed),
        ap (λ x. s.sent ++ x ∷ []) (h.written ∙ r.reported),
        h.whole,
      )

  -- Clients, with the texts that they are sent.
  pub data Reported : List Client → List (List ℕ) → Type 0 where
    over : Reported [] []
    client :
        {cs : List Client} {texts : List (List ℕ)} (c : Client) (text : List ℕ)
        → IsReported c text
        → Reported cs texts
        → Reported (c ∷ cs) (text ∷ texts)

  main-Reported :
      {cs : List Client} {texts : List (List ℕ)} (rest : List Client) (s : Server)
      → IsDecimal decimal
      → Reported cs texts
      → length s.tx ≡ buffer_size
      → (s' : Server) × (main decimal (cs ++ rest) s ≡ main decimal rest s')
        × (s'.sent ≡ s.sent ++ texts)
        × (length s'.tx ≡ buffer_size)
  unfolding main
  main-Reported rest s d over whole = (s, refl, sym (append-nil s.sent), whole)
  main-Reported rest s d (client c text r rs) whole =
      let (s₁, e₁, sent₁, whole₁) = attend-report c text s d r whole in
      let (s₂, e₂, sent₂, whole₂) = main-Reported rest s₁ d rs whole₁ in
      (
        s₂,
        simp (r.listening, r.accepted, e₁) e₂,
        sent₂ ∙ (rw sent₁ (append_assoc s.sent (text ∷ []) _)),
        whole₂,
      )

  -- Where `printf` writes at most twenty digits for a number of a machine word, the requests end with a
  -- NUL and the system answers, each client is sent the six lines on the system, in order, and nothing
  -- else, until `listen` or `accept` fails and the server exits.
  pub easy_main-reports :
      {cs : List Client} {texts : List (List ℕ)} (c : Client) (rest : List Client) (s : Server)
      → IsDecimal decimal
      → Reported cs texts
      → length s.tx ≡ buffer_size
      → (c.listening ≡ false) ⊎ (c.accepted ≡ false)
      → (s' : Server) × (main decimal (cs ++ c ∷ rest) s ≡ some (exited s'))
        × (s'.sent ≡ s.sent ++ texts)
  unfolding main
  easy_main-reports c rest s d rs whole failed =
      let (s', e, sent, whole') = main-Reported (c ∷ rest) s d rs whole in
      (s', e ∙ exits s' failed, sent)
    where
      exits :
          (v : Server)
          → (c.listening ≡ false) ⊎ (c.accepted ≡ false)
          → main decimal (c ∷ rest) v ≡ some (exited v)
      exits v (inl l) = simp l
      exits v (inr a) = elim (Bool-cases c.listening) [ inl l ↦ simp (l, a) | inr l ↦ simp l ]
