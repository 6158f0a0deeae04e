-- ===== src/Servers/ComplexServer/Invariant.antt =====
-- The file and the mutex of MyController.hpp against where the requests stand.
use c_advanced_problems.Prelude.{
  ℕ, ◌+◌, ◌≤◌, ◌<◌, ◌≡◌, ◌≢◌, refl, ◌∙◌, ap, true, Option, none, some, List, [], ◌∷◌, if◌then◌else◌,
  ◌==◌, ltb, leb, arith,
}
use c_advanced_problems.Prelude.Tally.{
  put, put-all, tally, tally-put, tally-zero, two-le-tally, tally-le, tally-full, tally-dominated,
}
use c_advanced_problems.Servers.ComplexServer.{
  Shared, Pc, lock, read, write, unlock, answered, threw, overflowed, lines, last_number, step,
  start,
}
use c_advanced_problems.Sync.Interleaving.{System, run, run-keeps}

-- No byte is a newline.
abbrev pub IsOneLine : List ℕ → Type 0
IsOneLine [] = Unit
IsOneLine (c ∷ text) = (c ≢ 10) × IsOneLine text

lines-one : (c : ℕ) (text : List ℕ) → IsOneLine (c ∷ text) → lines (c ∷ text) ≡ (c ∷ text) ∷ []
lines-one c [] (ne, h) = ground (arith, ne)
lines-one c (d ∷ text) (ne, h) = ground (arith, ne, lines-one d text h)

-- 1 where the request holds the mutex.
abbrev pub holds : Pc → ℕ
holds read = 1
holds (write i) = 1
holds (unlock i) = 1
holds threw = 1
holds overflowed = 1
holds _ = 0

-- 1 once the request has counted.
abbrev pub counted : Pc → ℕ
counted (unlock i) = 1
counted (answered i) = 1
counted _ = 0

-- 1 where the answer of the request is `a`.
abbrev pub answers : (a : ℕ) → Pc → ℕ
answers a (unlock i) = if i == a then 1 else 0
answers a (answered i) = if i == a then 1 else 0
answers a _ = 0

abbrev pub Stands : Shared → Pc → Type 0
Stands m (write i) = m.count ≡ i
Stands m threw = ⊥
Stands m overflowed = ⊥
Stands m _ = Unit

counted-le : (p : Pc) → counted p ≤ 1
counted-le (unlock i) = omega arith
counted-le (answered i) = omega arith
counted-le _ = omega arith

le-all : (n : ℕ) (pc : ℕ → Pc) → tally counted n pc ≤ n
le-all n pc =
    omega (arith, tally-le counted (λ _. 1) counted-le n pc, tally-full (λ _. 1) n pc (λ j k. refl))

module _ (stoi : List ℕ → Option ℕ) (to_text : ℕ → List ℕ) where
  pub record IsCurrent (n v : ℕ) (s : System Shared Pc) : Type 0 where
    pub held : s.shared.mutex + tally holds n s.pc ≡ 1
    pub stands : (i : ℕ) → i < n → Stands s.shared (s.pc i)
    pub number : s.shared.count ≡ v + tally counted n s.pc
    pub text : s.shared.file ≡ some (to_text s.shared.count)
    pub answer :
        (a : ℕ)
        → tally (answers a) n s.pc ≡ (if ltb v a then if leb a s.shared.count then 1 else 0 else 0)

  -- What the request finds in the file.
  read-number :
      (c : ℕ) (text : List ℕ)
      → text ≢ []
      → IsOneLine text
      → stoi text ≡ some c
      → last_number stoi 0 (lines text) ≡ some c
  read-number c [] ne h e = absurd (ne refl)
  read-number c (d ∷ text) ne h e =
      ap (last_number stoi 0) (lines-one d text h)
      ∙ ap (λ o. elim o [ none ↦ none | some k ↦ some k ]) e

  read-step :
      (m : Shared)
      → to_text m.count ≢ []
      → IsOneLine (to_text m.count)
      → stoi (to_text m.count) ≡ some m.count
      → m.file ≡ some (to_text m.count)
      → step stoi to_text true m read ≡ some (m, write m.count)
  unfolding step
  read-step m ne h e f =
      ap
        (λ o. elim o [
          | none ↦ some (m, write 0)
          | some text ↦ elim (last_number stoi 0 (lines text)) [
            | none ↦ some (m, threw)
            | some i ↦ some (m, write i)
          ]
        ])
        f
      ∙ ap (λ o. elim o [ none ↦ some (m, threw) | some i ↦ some (m, write i) ])
          (read-number m.count (to_text m.count) ne h e)

  step-held :
      (m m' : Shared) (p p' : Pc)
      → step stoi to_text true m p ≡ some (m', p')
      → step stoi to_text true m read ≡ some (m, write m.count)
      → (counted p ≡ 0 → m.count < 2147483647)
      → Stands m p
      → m'.mutex + holds p' ≡ m.mutex + holds p
  unfolding step
  step-held m m' lock p' e f small st = ground arith
  step-held m m' read p' e f small st = ground arith
  step-held m m' _ p' e f small st = ground arith

  step-Stands :
      (m m' : Shared) (p p' : Pc)
      → step stoi to_text true m p ≡ some (m', p')
      → step stoi to_text true m read ≡ some (m, write m.count)
      → (counted p ≡ 0 → m.count < 2147483647)
      → Stands m p
      → Stands m' p'
  unfolding step
  step-Stands m m' lock p' e f small st = ground arith
  step-Stands m m' read p' e f small st = ground arith
  step-Stands m m' _ p' e f small st = ground arith

  step-number :
      (m m' : Shared) (p p' : Pc)
      → step stoi to_text true m p ≡ some (m', p')
      → step stoi to_text true m read ≡ some (m, write m.count)
      → (counted p ≡ 0 → m.count < 2147483647)
      → Stands m p
      → m'.count + counted p ≡ m.count + counted p'
  unfolding step
  step-number m m' lock p' e f small st = ground arith
  step-number m m' read p' e f small st = ground arith
  step-number m m' _ p' e f small st = ground arith

  step-text :
      (m m' : Shared) (p p' : Pc)
      → step stoi to_text true m p ≡ some (m', p')
      → step stoi to_text true m read ≡ some (m, write m.count)
      → (counted p ≡ 0 → m.count < 2147483647)
      → Stands m p
      → m.file ≡ some (to_text m.count)
      → m'.file ≡ some (to_text m'.count)
  unfolding step
  step-text m m' lock p' e f small st t = ground arith
  step-text m m' read p' e f small st t = ground arith
  step-text m m' _ p' e f small st t = ground arith

  step-other :
      (q : Pc) (m m' : Shared) (p p' : Pc)
      → step stoi to_text true m p ≡ some (m', p')
      → step stoi to_text true m read ≡ some (m, write m.count)
      → (counted p ≡ 0 → m.count < 2147483647)
      → Stands m p
      → (holds p + holds q ≤ 1) × Stands m q
      → Stands m' q
  unfolding step
  step-other q m m' lock p' e f small st t = ground arith
  step-other q m m' read p' e f small st t = ground arith
  step-other q m m' _ p' e f small st t = ground arith

  -- The number that is counted becomes the answer of one request.
  step-answer :
      (a v : ℕ) (m m' : Shared) (p p' : Pc)
      → step stoi to_text true m p ≡ some (m', p')
      → step stoi to_text true m read ≡ some (m, write m.count)
      → (counted p ≡ 0 → m.count < 2147483647)
      → Stands m p
      → v ≤ m.count
      → answers a p' + (if ltb v a then if leb a m.count then 1 else 0 else 0)
        ≡ answers a p + (if ltb v a then if leb a m'.count then 1 else 0 else 0)
  unfolding step
  step-answer a v m m' lock p' e f small st le = ground arith
  step-answer a v m m' read p' e f small st le = ground arith
  step-answer a v m m' _ p' e f small st le = ground arith

  module _ (n v : ℕ) (right : (i : ℕ) → i ≤ 2147483647 → stoi (to_text i) ≡ some i)
      (full : (i : ℕ) → to_text i ≢ []) (flat : (i : ℕ) → IsOneLine (to_text i))
      (bound : v + n ≤ 2147483647) where
    keeps-IsCurrent :
        (i : ℕ) (s : System Shared Pc) (m : Shared) (p : Pc)
        → i < n
        → step stoi to_text true s.shared (s.pc i) ≡ some (m, p)
        → IsCurrent n v s
        → IsCurrent n v (record { shared = m; pc = put s.pc i p })
    keeps-IsCurrent i s m p h e c =
        let below = tally-dominated counted (λ _. 1) counted-le n s.pc i h in
        let all = tally-full (λ _. 1) n s.pc (λ j k. refl) in
        let f =
          read-step s.shared (full s.shared.count) (flat s.shared.count)
            (right s.shared.count (omega (arith, c.number, bound, le-all n s.pc))) c.text in
        let small : counted (s.pc i) ≡ 0 → s.shared.count < 2147483647 =
          λ z. omega (arith, z, c.number, bound, below, all) in
        let st = c.stands i h in
        record {
          held = omega (
            arith,
            c.held,
            step-held s.shared m (s.pc i) p e f small st,
            tally-put holds n s.pc i p h,
          );
          stands =
              put-all (λ j q. j < n → Stands m q) s.pc i p
                (λ _. step-Stands s.shared m (s.pc i) p e f small st)
                (λ j ne k.
                  step-other (s.pc j) s.shared m (s.pc i) p e f small st
                    (omega (arith, c.held, two-le-tally holds n s.pc i j h k ne), c.stands j k));
          number = omega (
            arith,
            c.number,
            step-number s.shared m (s.pc i) p e f small st,
            tally-put counted n s.pc i p h,
          );
          text = step-text s.shared m (s.pc i) p e f small st c.text;
          answer = λ a. omega (
            arith,
            c.answer a,
            step-answer a v s.shared m (s.pc i) p e f small st (omega (arith, c.number)),
            tally-put (answers a) n s.pc i p h,
          );
        }

    pub run-IsCurrent :
        (is : List ℕ)
        → IsCurrent n v (run (step stoi to_text true) n is (start (some (to_text v)) v))
    run-IsCurrent is =
        run-keeps (step stoi to_text true) n (IsCurrent n v) keeps-IsCurrent is
          (start (some (to_text v)) v)
          (record {
            held = rw (tally-zero holds n (λ i. lock) (λ i. refl)) refl;
            stands = λ i h. tt;
            number = omega (arith, tally-zero counted n (λ i. lock) (λ i. refl));
            text = refl;
            answer = λ a. ground (arith, tally-zero (answers a) n (λ i. lock) (λ i. refl));
          })
