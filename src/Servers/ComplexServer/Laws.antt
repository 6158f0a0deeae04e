-- ===== src/Servers/ComplexServer/Laws.antt =====
-- The answers to requests for the counter in a file.
use c_advanced_problems.Prelude.{
  ℕ, ◌+◌, ◌*◌, ◌≤◌, ◌<◌, ◌≡◌, ◌≢◌, refl, ◌∙◌, ap, Bool, true, false, Option, none, some, List, [],
  ◌++◌, if◌then◌else◌, ltb, leb, arith, dec_lt,
}
use c_advanced_problems.Prelude.Tally.{tally, tally-pos, tally-full}
use c_advanced_problems.Servers.ComplexServer.{
  Shared, Pc, lock, read, write, unlock, answered, threw, overflowed, step, start,
}
use c_advanced_problems.Servers.ComplexServer.Invariant.{
  IsOneLine, holds, counted, answers, Stands, IsCurrent, run-IsCurrent,
}
use c_advanced_problems.Sync.Interleaving.{System, run}
use c_advanced_problems.Sync.Termination.{
  can_step, rounds, rounds-finish, waits-unless, goes-anyway,
}

abbrev is_finished : Pc → Bool
is_finished (answered i) = true
is_finished threw = true
is_finished overflowed = true
is_finished _ = false

module _ (stoi : List ℕ → Option ℕ) (to_text : ℕ → List ℕ) where
  free-steps :
      (m : Shared) (p : Pc)
      → is_finished p ≡ false
      → 0 < m.mutex
      → can_step (step stoi to_text true) m p ≡ true
  unfolding step
  free-steps m lock f h = waits-unless _ _ _ (ground (arith, h))
  free-steps m (write i) f h = goes-anyway _ _ _ _ _
  free-steps m _ f h = ground arith

  holder-steps :
      (m : Shared) (p : Pc)
      → 0 < holds p
      → Stands m p
      → can_step (step stoi to_text true) m p ≡ true
  unfolding step
  holder-steps m lock h st = absurd (omega (arith, h))
  holder-steps m (answered i) h st = absurd (omega (arith, h))
  holder-steps m (write i) h st = goes-anyway _ _ _ _ _
  holder-steps m threw h st = elim st [ ]
  holder-steps m overflowed h st = elim st [ ]
  holder-steps m _ h st = ground arith

  progress :
      (n v i : ℕ) (s : System Shared Pc)
      → IsCurrent stoi to_text n v s
      → i < n
      → is_finished (s.pc i) ≡ false
      → (j : ℕ) × (j < n) × (can_step (step stoi to_text true) s.shared (s.pc j) ≡ true)
  progress n v i s c h f = elim (dec_lt 0 s.shared.mutex) [
    | yes free ↦ (i, h, free-steps s.shared (s.pc i) f free)
    | no held ↦
        let (j, k, w) = tally-pos holds n s.pc (omega (arith, held, c.held)) in
        (j, k, holder-steps s.shared (s.pc j) w (c.stands j k))
  ]

  rank : Pc → ℕ
  rank lock = 4
  rank read = 3
  rank (write i) = 2
  rank (unlock i) = 1
  rank _ = 0

  drops :
      (m m' : Shared) (p p' : Pc) → step stoi to_text true m p ≡ some (m', p') → rank p' < rank p
  unfolding step rank
  drops m m' lock p' e = ground arith
  drops m m' _ p' e = ground arith

  rank-le : (p : Pc) → rank p ≤ 4
  unfolding rank
  rank-le lock = omega arith
  rank-le _ = omega arith

  finished-stays : (m : Shared) (p : Pc) → is_finished p ≡ true → step stoi to_text true m p ≡ none
  unfolding step
  finished-stays m lock e = absurd cc
  finished-stays m _ e = ground arith

  -- `n` requests after the turns of a schedule, and then enough rounds for all.
  abbrev pub ended : (n v : ℕ) (is : List ℕ) → System Shared Pc
  ended n v is =
      run (step stoi to_text true) n (is ++ rounds n (n * 4)) (start (some (to_text v)) v)

finished-counted : (m : Shared) (p : Pc) → is_finished p ≡ true → Stands m p → counted p ≡ 1
finished-counted m (answered i) e st = refl
finished-counted m threw e st = elim st [ ]
finished-counted m overflowed e st = elim st [ ]
finished-counted m _ e st = absurd cc

-- `n` requests for `/FScounter` at once, with `v` in the file, which can be written, and `v + n` an int:
-- whatever order their statements had before, four rounds of turns per request answer all of them; the
-- file then holds `v + n`, and each number from `v + 1` to `v + n`, and no other, is the answer of one
-- request. std::stoi is asked to read back what `operator<<` writes for an int, which is one line.
pub fscounter-answers :
    (stoi : List ℕ → Option ℕ) (to_text : ℕ → List ℕ) (n v : ℕ) (is : List ℕ)
    → ((i : ℕ) → i ≤ 2147483647 → stoi (to_text i) ≡ some i)
    → ((i : ℕ) → to_text i ≢ [])
    → ((i : ℕ) → IsOneLine (to_text i))
    → v + n ≤ 2147483647
    → (a : ℕ)
    → ((ended stoi to_text n v is).shared.file ≡ some (to_text (v + n)))
      × (tally (answers a) n (ended stoi to_text n v is).pc
          ≡ (if ltb v a then if leb a (v + n) then 1 else 0 else 0))
fscounter-answers stoi to_text n v is right full flat bound a =
    let current = run-IsCurrent stoi to_text n v right full flat bound in
    let s = ended stoi to_text n v is in
    let c = current (is ++ rounds n (n * 4)) in
    let all : tally counted n s.pc ≡ n = tally-full counted n s.pc (λ i h.
      finished-counted s.shared (s.pc i)
        (rounds-finish (step stoi to_text true) n (rank stoi to_text) (drops stoi to_text)
          is_finished (finished-stays stoi to_text) (start (some (to_text v)) v)
          (λ js j k f. progress stoi to_text n v j _ (current js) k f) 4 (rank-le stoi to_text) is i
          h)
        (c.stands i h)) in
    let number : s.shared.count ≡ v + n = omega (arith, c.number, all) in
    (
      c.text ∙ ap (λ (k : ℕ). some (to_text k)) number,
      c.answer a ∙ ap (λ (k : ℕ). if ltb v a then if leb a k then 1 else 0 else 0) number,
    )
