-- ===== src/Servers/ComplexServer/Exceptions.antt =====
-- What an exception of std::stoi in `fscounter` does to the other requests.
use c_advanced_problems.Prelude.{
  ℕ, ◌+◌, ◌<◌, ◌≡◌, ◌≢◌, refl, ◌∙◌, ap, Bool, Option, none, some, List, arith,
}
use c_advanced_problems.Prelude.Tally.{put-all, tally, tally-put, tally-zero, two-le-tally}
use c_advanced_problems.Servers.ComplexServer.{
  Shared, Pc, lock, read, write, threw, lines, last_number, step, start,
}
use c_advanced_problems.Servers.ComplexServer.Invariant.{holds}
use c_advanced_problems.Sync.Interleaving.{System, run, run-keeps}

-- Where a request may stand as long as the file holds no number.
abbrev Unanswered : Pc → Type 0
Unanswered lock = Unit
Unanswered read = Unit
Unanswered threw = Unit
Unanswered _ = ⊥

record IsBad (n : ℕ) (text : List ℕ) (s : System Shared Pc) : Type 0 where
  held : s.shared.mutex + tally holds n s.pc ≡ 1
  file : s.shared.file ≡ some text
  stands : (i : ℕ) → i < n → Unanswered (s.pc i)

module _ (stoi : List ℕ → Option ℕ) (to_text : ℕ → List ℕ) (writable : Bool) (text : List ℕ)
    (bad : last_number stoi 0 (lines text) ≡ none) where
  read-throws :
      (m : Shared) → m.file ≡ some text → step stoi to_text writable m read ≡ some (m, threw)
  unfolding step
  read-throws m f =
      ap
        (λ o. elim o [
          | none ↦ some (m, write 0)
          | some t ↦ elim (last_number stoi 0 (lines t)) [
            | none ↦ some (m, threw)
            | some i ↦ some (m, write i)
          ]
        ])
        f
      ∙ ap (λ o. elim o [ none ↦ some (m, threw) | some i ↦ some (m, write i) ]) bad

  step-bad :
      (m m' : Shared) (p p' : Pc)
      → step stoi to_text writable m p ≡ some (m', p')
      → step stoi to_text writable m read ≡ some (m, threw)
      → Unanswered p
      → (m'.mutex + holds p' ≡ m.mutex + holds p) × ((m'.file ≡ m.file) × Unanswered p')
  unfolding step
  step-bad m m' lock p' e f st = ground arith
  step-bad m m' read p' e f st = ground arith
  step-bad m m' _ p' e f st = ground arith

  run-IsBad :
      (n count : ℕ) (is : List ℕ)
      → IsBad n text (run (step stoi to_text writable) n is (start (some text) count))
  run-IsBad n count is =
      run-keeps (step stoi to_text writable) n (IsBad n text)
        (λ i s m p h e c.
          let (a, (b, d)) =
            step-bad s.shared m (s.pc i) p e (read-throws s.shared c.file) (c.stands i h) in
          record {
            held = omega (arith, c.held, a, tally-put holds n s.pc i p h);
            file = b ∙ c.file;
            stands =
                put-all (λ j q. j < n → Unanswered q) s.pc i p (λ _. d) (λ j ne k. c.stands j k);
          })
        is (start (some text) count)
        (record {
          held = rw (tally-zero holds n (λ i. lock) (λ i. refl)) refl;
          file = refl;
          stands = λ i h. tt;
        })

blocked-step :
    (stoi : List ℕ → Option ℕ) (to_text : ℕ → List ℕ) (writable : Bool) (m : Shared) (p : Pc)
    → Unanswered p
    → holds p ≡ 0
    → m.mutex ≡ 0
    → (p ≡ lock) × (step stoi to_text writable m p ≡ none)
unfolding step
blocked-step stoi to_text writable m lock st h e = (refl, ground (arith, e))
blocked-step stoi to_text writable m read st h e = absurd (omega (arith, h))
blocked-step stoi to_text writable m threw st h e = absurd (omega (arith, h))
blocked-step stoi to_text writable m _ st h e = elim st [ ]

-- With a text in the file that std::stoi rejects, and after any order of the statements of `n` requests:
-- once one of them has left `fscounter` by the exception, each other one waits for the mutex and cannot
-- go on, since nobody gives it back.
pub exception-blocks :
    (stoi : List ℕ → Option ℕ) (to_text : ℕ → List ℕ) (writable : Bool) (text : List ℕ)
    (n count : ℕ) (is : List ℕ)
    → last_number stoi 0 (lines text) ≡ none
    → (i j : ℕ) → i < n
    → j < n
    → i ≢ j
    → (run (step stoi to_text writable) n is (start (some text) count)).pc i ≡ threw
    → ((run (step stoi to_text writable) n is (start (some text) count)).pc j ≡ lock)
      × (step stoi to_text writable
            (run (step stoi to_text writable) n is (start (some text) count)).shared
            ((run (step stoi to_text writable) n is (start (some text) count)).pc j)
          ≡ none)
exception-blocks stoi to_text writable text n count is bad i j h k ne at =
    let s = run (step stoi to_text writable) n is (start (some text) count) in
    let c = run-IsBad stoi to_text writable text bad n count is in
    let both = two-le-tally holds n s.pc i j h k ne in
    let one = ap holds at in
    blocked-step stoi to_text writable s.shared (s.pc j) (c.stands j k)
      (omega (arith, c.held, both, one)) (omega (arith, c.held, both, one))
