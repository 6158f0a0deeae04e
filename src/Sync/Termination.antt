-- ===== src/Sync/Termination.antt =====
-- From "some thread can go on" to "all threads finish": where each step of a thread brings it nearer to
-- its end, turns that are dealt out round by round finish all threads.
use c_advanced_problems.Prelude.{
  ℕ, zero, suc, ◌+◌, ◌*◌, ◌<◌, ◌≤◌, ◌≡◌, refl, sym, subst, ◌∙◌, ◌⊎◌, inl, inr, Bool, true, false,
  Option, none, some, List, [], ◌∷◌, ◌++◌, ◌||◌, ◌&&◌, arith, dec_lt, ℕ_discrete, Bool-cases,
  if◌then◌else◌,
}
use mathlib.Core.List.{append_assoc}
use c_advanced_problems.Prelude.Tally.{tally, tally-put, tally-bound}
use c_advanced_problems.Sync.Interleaving.{System, moved, turn, run, run-blocked}

-- One turn for each of the first `n` threads.
abbrev pub turns : (n : ℕ) → List ℕ
turns zero = []
turns (suc n) = n ∷ turns n

-- `r` rounds of `n` threads.
abbrev pub rounds : (n r : ℕ) → List ℕ
rounds n zero = []
rounds n (suc r) = turns n ++ rounds n r

module _ {M P : Type 0} (step : M → P → Option (M × P)) (n : ℕ) where
  pub run-append :
      (is js : List ℕ) (s : System M P) → run step n (is ++ js) s ≡ run step n js (run step n is s)
  unfolding run
  run-append [] js s = refl
  run-append (i ∷ is) js s = run-append is js (turn step n i s)

module _ {M P : Type 0} (step : M → P → Option (M × P)) where
  abbrev pub can_step : M → P → Bool
  can_step m p = elim (step m p) [ none ↦ false | some r ↦ true ]

-- Statements that test: one waits where the test holds, one where it fails, and one never.
module _ {M P : Type 0} where
  pub waits-unless :
      (b : Bool) (m : M) (p : P)
      → b ≡ false
      → can_step (λ _ _. if b then none else some (m, p)) m p ≡ true
  waits-unless true m p e = absurd cc
  waits-unless false m p e = refl

  pub goes-when :
      (b : Bool) (m : M) (p : P)
      → b ≡ true
      → can_step (λ _ _. if b then some (m, p) else none) m p ≡ true
  goes-when true m p e = refl
  goes-when false m p e = absurd cc

  pub goes-anyway :
      (b : Bool) (m m' : M) (p p' : P)
      → can_step (λ _ _. if b then some (m, p) else some (m', p')) m p ≡ true
  goes-anyway true m m' p p' = refl
  goes-anyway false m m' p p' = refl

step-can :
    {A : Type 0} (o : Option A)
    → (elim o [ none ↦ false | some r ↦ true ]) ≡ true
    → (a : A) × (o ≡ some a)
step-can none e = ground (arith, e)
step-can (some a) e = (a, refl)

-- `rank` is how far a thread is from its end, and `extra` what the shared memory adds.
module _ {M P : Type 0} (step : M → P → Option (M × P)) (n : ℕ) (extra : M → ℕ) (rank : P → ℕ)
    (drops : (m m' : M) (p p' : P)
      → step m p ≡ some (m', p')
      → extra m' + rank p' < extra m + rank p) where
  -- How far all threads are from their end.
  weight : System M P → ℕ
  weight s = extra s.shared + tally rank n s.pc

  moved-weight :
      (i : ℕ) (s : System M P) (o : Option (M × P))
      → i < n
      → step s.shared (s.pc i) ≡ o
      → (moved s i o ≡ s) ⊎ (weight (moved s i o) < weight s)
  unfolding weight
  moved-weight i s none h e = inl refl
  moved-weight i s (some (m, p)) h e =
      inr (omega (arith, tally-put rank n s.pc i p h, drops s.shared m (s.pc i) p e))

  -- A turn changes nothing or brings the threads nearer to their end.
  turn-weight :
      (i : ℕ) (s : System M P) → (turn step n i s ≡ s) ⊎ (weight (turn step n i s) < weight s)
  unfolding turn
  turn-weight i s = once (dec_lt i n)
    where
      once :
          (d : Dec (i < n))
          → (elim d [ yes h ↦ moved s i (step s.shared (s.pc i)) | no h ↦ s ] ≡ s)
            ⊎ (weight (elim d [ yes h ↦ moved s i (step s.shared (s.pc i)) | no h ↦ s ]) < weight s)
      once (yes h) = moved-weight i s (step s.shared (s.pc i)) h refl
      once (no h) = inl refl

  -- The turn of a thread that can go on.
  turn-drops :
      (i : ℕ) (s : System M P) {r : M × P}
      → i < n
      → step s.shared (s.pc i) ≡ some r
      → weight (turn step n i s) < weight s
  unfolding turn weight
  turn-drops i s {r = r} h e = once (dec_lt i n)
    where
      once :
          (d : Dec (i < n))
          → weight (elim d [ yes h ↦ moved s i (step s.shared (s.pc i)) | no h ↦ s ]) < weight s
      once (yes _) =
          rw e (omega (arith, tally-put rank n s.pc i r.1 h, drops s.shared r.0 (s.pc i) r.1 e))
      once (no ge) = absurd (ge h)

  run-weight : (is : List ℕ) (s : System M P) → weight (run step n is s) ≤ weight s
  unfolding run
  run-weight [] s = omega arith
  run-weight (i ∷ is) s = elim (turn-weight i s) [
    | inl same ↦ rw same (run-weight is s)
    | inr less ↦ omega (arith, less, run-weight is (turn step n i s))
  ]

  -- In turns for all threads, one that can go on at the start, or another one, does a step.
  turns-drops :
      (k j : ℕ) (s : System M P) {r : M × P}
      → j < k
      → j < n
      → step s.shared (s.pc j) ≡ some r
      → weight (run step n (turns k) s) < weight s
  unfolding run
  turns-drops zero j s h l e = absurd (omega (arith, h))
  turns-drops (suc k) j s h l e = elim (ℕ_discrete k j) [
    | yes now ↦ omega (
      arith,
      run-weight (turns k) (turn step n k s),
      subst (λ i. weight (turn step n i s) < weight s) (sym now) (turn-drops j s l e),
    )
    | no later ↦ elim (turn-weight k s) [
      | inl same ↦
          subst (λ v. weight (run step n (turns k) v) < weight s) (sym same)
            (turns-drops k j s (omega (arith, h, later)) l e)
      | inr less ↦ omega (arith, less, run-weight (turns k) (turn step n k s))
    ]
  ]

  module _ (is_finished : P → Bool)
      (stays : (m : M) (p : P) → is_finished p ≡ true → step m p ≡ none) (origin : System M P)
      (progress : (is : List ℕ) (i : ℕ)
        → i < n
        → is_finished ((run step n is origin).pc i) ≡ false
        → (j : ℕ) × (j < n)
          × (can_step step (run step n is origin).shared ((run step n is origin).pc j)
              ≡ true)) where
    abbrev AllFinished : ℕ → System M P → Type 0
    AllFinished k s = (i : ℕ) → i < k → is_finished (s.pc i) ≡ true

    all_or_one :
        (k : ℕ) (s : System M P)
        → AllFinished k s ⊎ ((i : ℕ) × (i < k) × (is_finished (s.pc i) ≡ false))
    all_or_one zero s = inl (λ i h. absurd (omega (arith, h)))
    all_or_one (suc k) s = elim (Bool-cases (is_finished (s.pc k))) [
      | inr waits ↦ inr (k, omega arith, waits)
      | inl done ↦ elim (all_or_one k s) [
        | inr (i, h, waits) ↦ inr (i, omega (arith, h), waits)
        | inl all ↦ inl (λ i h. elim (ℕ_discrete k i) [
          | yes last ↦ subst (λ j. is_finished (s.pc j) ≡ true) last done
          | no ne ↦ all i (omega (arith, h, ne))
        ])
      ]
    ]

    -- A round in which somebody has not finished yet.
    round-drops :
        (is : List ℕ) (i : ℕ)
        → i < n
        → is_finished ((run step n is origin).pc i) ≡ false
        → weight (run step n (is ++ turns n) origin) < weight (run step n is origin)
    round-drops is i h waits =
        let (j, l, can) = progress is i h waits in
        let (r, e) =
          step-can (step (run step n is origin).shared ((run step n is origin).pc j)) can in
        subst (λ v. weight v < weight (run step n is origin))
          (sym (run-append step n is (turns n) origin))
          (turns-drops n j (run step n is origin) l l e)

    -- Threads that have finished stay so.
    kept-AllFinished :
        (is js : List ℕ)
        → AllFinished n (run step n is origin)
        → AllFinished n (run step n (is ++ js) origin)
    kept-AllFinished is js all =
        subst (AllFinished n)
          (sym (
            run-append step n is js origin
            ∙ run-blocked step n (run step n is origin) (λ i l. stays _ _ (all i l)) js))
          all

    rounds-AllFinished :
        (r : ℕ) (is : List ℕ)
        → weight (run step n is origin) ≤ r
        → AllFinished n (run step n (is ++ rounds n r) origin)
    rounds-AllFinished zero is h = elim (all_or_one n (run step n is origin)) [
      | inl all ↦ kept-AllFinished is [] all
      | inr (i, l, waits) ↦ absurd (omega (arith, h, round-drops is i l waits))
    ]
    rounds-AllFinished (suc r) is h = elim (all_or_one n (run step n is origin)) [
      | inl all ↦ kept-AllFinished is (rounds n (suc r)) all
      | inr (i, l, waits) ↦
          subst (λ js. AllFinished n (run step n js origin))
            (append_assoc is (turns n) (rounds n r))
            (rounds-AllFinished r (is ++ turns n) (omega (arith, h, round-drops is i l waits)))
    ]

    -- As many rounds as the threads are from their end at first finish all threads, whatever has
    -- happened before.
    pub rounds-finish_within :
        (r : ℕ)
        → extra origin.shared + tally rank n origin.pc ≤ r
        → (is : List ℕ) (i : ℕ) → i < n
        → is_finished ((run step n (is ++ rounds n r) origin).pc i) ≡ true
    unfolding weight
    rounds-finish_within r b is = rounds-AllFinished r is (omega (arith, b, run-weight is origin))

module _ {M P : Type 0} (step : M → P → Option (M × P)) (n : ℕ) (rank : P → ℕ)
    (drops : (m m' : M) (p p' : P) → step m p ≡ some (m', p') → rank p' < rank p)
    (is_finished : P → Bool) (stays : (m : M) (p : P) → is_finished p ≡ true → step m p ≡ none)
    (origin : System M P)
    (progress : (is : List ℕ) (i : ℕ)
      → i < n
      → is_finished ((run step n is origin).pc i) ≡ false
      → (j : ℕ) × (j < n)
        × (can_step step (run step n is origin).shared ((run step n is origin).pc j) ≡ true)) where
  -- Where each step brings a thread nearer to its end and no rank is above `t`, `n * t` rounds finish
  -- all threads, whatever has happened before.
  pub rounds-finish :
      (t : ℕ)
      → ((p : P) → rank p ≤ t)
      → (is : List ℕ) (i : ℕ) → i < n
      → is_finished ((run step n (is ++ rounds n (n * t)) origin).pc i) ≡ true
  rounds-finish t b =
      rounds-finish_within step n (λ _. 0) rank (λ m m' p p' e. omega (arith, drops m m' p p' e))
        is_finished stays origin progress (n * t)
        (omega (arith, tally-bound rank n t origin.pc (λ i. b (origin.pc i))))

-- The same for two threads, of which one can go on or both have finished.
pub either-progress :
    (can done : ℕ → Bool)
    → ((can 0 || can 1) || (done 0 && done 1)) ≡ true
    → (i : ℕ) → i < 2
    → done i ≡ false
    → (j : ℕ) × (j < 2) × (can j ≡ true)
either-progress can done h i lt waits = elim (Bool-cases (can 0)) [
  | inl first ↦ (0, omega arith, first)
  | inr stuck ↦ elim (Bool-cases (can 1)) [
    | inl second ↦ (1, omega arith, second)
    | inr too ↦ absurd (neither i lt waits (both (simp (stuck, too) at h)))
  ]
]
  where
    both : (done 0 && done 1) ≡ true → (done 0 ≡ true) × (done 1 ≡ true)
    both e = ground (arith, e)

    neither : (i : ℕ) → i < 2 → done i ≡ false → ((done 0 ≡ true) × (done 1 ≡ true)) → ⊥
    neither zero lt e (a, b) = ground (arith, e, a)
    neither (suc zero) lt e (a, b) = ground (arith, e, b)
    neither (suc (suc i)) lt e _ = omega (arith, lt)

-- The same of three threads.
pub three-progress :
    (can done : ℕ → Bool)
    → (((can 0 || can 1) || can 2) || ((done 0 && done 1) && done 2)) ≡ true
    → (i : ℕ) → i < 3
    → done i ≡ false
    → (j : ℕ) × (j < 3) × (can j ≡ true)
three-progress can done h i lt waits = elim (Bool-cases (can 0)) [
  | inl first ↦ (0, omega arith, first)
  | inr stuck ↦ elim (Bool-cases (can 1)) [
    | inl second ↦ (1, omega arith, second)
    | inr too ↦ (2, omega arith, third i lt waits (simp (stuck, too) at h))
  ]
]
  where
    third :
        (i : ℕ)
        → i < 3
        → done i ≡ false
        → (can 2 || ((done 0 && done 1) && done 2)) ≡ true
        → can 2 ≡ true
    third zero lt e h = ground (arith, e, h)
    third (suc zero) lt e h = ground (arith, e, h)
    third (suc (suc zero)) lt e h = ground (arith, e, h)
    third (suc (suc (suc i))) lt e h = absurd (omega (arith, lt))
