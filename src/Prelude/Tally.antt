-- ===== src/Prelude/Tally.antt =====
-- Families of threads, indexed by ℕ: a write at one index, and how much the first `n` weigh together.
use Prim.Native.Nat.{ℕ, zero, suc, ◌+◌, ◌*◌, ◌≤◌, ◌<◌}
use mathlib.Core.Path.{◌≡◌, refl, sym, subst}
use mathlib.Core.Logic.{◌≢◌, ◌⊎◌, inl, inr}
use native.Mathlib.Decide.{dec_lt, ℕ_discrete}
use native.Mathlib.Omega.{arith}
use c_advanced_problems.Prelude.Tests.{◌==◌, if◌then◌else◌}

-- `f` with its value at `i` replaced.
abbrev pub put {ℓ} : {A : Type ℓ} → (ℕ → A) → ℕ → A → ℕ → A
put f i a j = if i == j then a else f j

module _ {ℓ} {A : Type ℓ} (w : A → ℕ) where
  pub tally : ℕ → (ℕ → A) → ℕ
  tally zero f = 0
  tally (suc n) f = w (f n) + tally n f

  pub tally-suc : (n : ℕ) (f : ℕ → A) → tally (suc n) f ≡ w (f n) + tally n f
  unfolding tally
  tally-suc n f = refl

  tally-put_outside : (n : ℕ) (f : ℕ → A) (i : ℕ) (a : A) → n ≤ i → tally n (put f i a) ≡ tally n f
  unfolding tally
  tally-put_outside zero f i a h = refl
  tally-put_outside (suc n) f i a h = ground (arith, tally-put_outside n f i a)

  -- A write exchanges the weight of the old value for that of the new one.
  pub tally-put :
      (n : ℕ) (f : ℕ → A) (i : ℕ) (a : A) → i < n → tally n (put f i a) + w (f i) ≡ tally n f + w a
  unfolding tally
  tally-put zero f i a h = absurd (omega arith)
  tally-put (suc n) f i a h = elim (dec_lt i n) [
    | yes inside ↦ ground (arith, tally-put n f i a inside)
    | no last ↦ ground (arith, tally-put_outside n f i a)
  ]

  -- One thread weighs no more than all of them.
  pub le-tally : (n : ℕ) (f : ℕ → A) (i : ℕ) → i < n → w (f i) ≤ tally n f
  unfolding tally
  le-tally zero f i h = absurd (omega arith)
  le-tally (suc n) f i h = elim (dec_lt i n) [
    | yes inside ↦ omega (arith, le-tally n f i inside)
    | no last ↦ ground arith
  ]

  -- Two threads weigh no more than all of them.
  pub two-le-tally :
      (n : ℕ) (f : ℕ → A) (i j : ℕ) → i < n → j < n → i ≢ j → w (f i) + w (f j) ≤ tally n f
  unfolding tally
  two-le-tally zero f i j h k ne = absurd (omega arith)
  two-le-tally (suc n) f i j h k ne = elim (dec_lt i n) [
    | yes left ↦ elim (dec_lt j n) [
      | yes right ↦ omega (arith, two-le-tally n f i j left right ne)
      | no last ↦ let e : j ≡ n = omega arith in rw e (omega (arith, le-tally n f i left))
    ]
    | no last ↦ let e : i ≡ n = omega arith in rw e (omega (arith, le-tally n f j (omega arith)))
  ]

  -- Where all weigh something together, one of them does.
  pub tally-pos : (n : ℕ) (f : ℕ → A) → 0 < tally n f → (i : ℕ) × (i < n) × (0 < w (f i))
  unfolding tally
  tally-pos zero f h = absurd (omega arith)
  tally-pos (suc n) f h = elim (dec_lt 0 (w (f n))) [
    | yes here ↦ (n, omega arith, here)
    | no light ↦ let (i, below, found) = tally-pos n f (omega arith) in (i, omega arith, found)
  ]

  -- Where fewer than `n` of weight at most 1 weigh something, one of the first `n` weighs nothing.
  pub tally-lt : (n : ℕ) (f : ℕ → A) → tally n f < n → (i : ℕ) × (i < n) × (w (f i) ≡ 0)
  unfolding tally
  tally-lt zero f h = absurd (omega arith)
  tally-lt (suc n) f h = elim (dec_lt 0 (w (f n))) [
    | yes here ↦ let (i, below, found) = tally-lt n f (omega arith) in (i, omega arith, found)
    | no light ↦ (n, omega arith, omega arith)
  ]

  pub tally-zero : (n : ℕ) (f : ℕ → A) → ((i : ℕ) → w (f i) ≡ 0) → tally n f ≡ 0
  unfolding tally
  tally-zero zero f h = refl
  tally-zero (suc n) f h = omega (arith, h n, tally-zero n f h)

  pub tally-none : (n : ℕ) (f : ℕ → A) → ((i : ℕ) → i < n → w (f i) ≡ 0) → tally n f ≡ 0
  unfolding tally
  tally-none zero f h = refl
  tally-none (suc n) f h =
      omega (arith, h n (omega arith), tally-none n f (λ i k. h i (omega arith)))

  pub tally-full : (n : ℕ) (f : ℕ → A) → ((i : ℕ) → i < n → w (f i) ≡ 1) → tally n f ≡ n
  unfolding tally
  tally-full zero f h = refl
  tally-full (suc n) f h =
      omega (arith, h n (omega arith), tally-full n f (λ i k. h i (omega arith)))

  pub tally-each : (n a : ℕ) (f : ℕ → A) → ((i : ℕ) → i < n → w (f i) ≡ a) → tally n f ≡ n * a
  unfolding tally
  tally-each zero a f h = omega arith
  tally-each (suc n) a f h =
      ground (arith, h n (omega arith), tally-each n a f (λ i k. h i (omega arith)))

  pub tally-constant : (n : ℕ) (a : A) → tally n (λ _. a) ≡ n * w a
  tally-constant n a = tally-each n (w a) (λ _. a) (λ i h. refl)

  pub tally-below : (n t : ℕ) (f : ℕ → A) → ((i : ℕ) → i < n → w (f i) < t) → tally n f + n ≤ n * t
  unfolding tally
  tally-below zero t f h = omega arith
  tally-below (suc n) t f h =
      ground (arith, h n (omega arith), tally-below n t f (λ i k. h i (omega arith)))

  pub tally-bound : (n t : ℕ) (f : ℕ → A) → ((i : ℕ) → w (f i) ≤ t) → tally n f ≤ n * t
  unfolding tally
  tally-bound zero t f h = omega arith
  tally-bound (suc n) t f h = ground (arith, h n, tally-bound n t f h)

-- Two families of the same weights.
pub tally-same {ℓ κ} :
    {A : Type ℓ} {B : Type κ} (w : A → ℕ) (v : B → ℕ) (n : ℕ) (f : ℕ → A) (g : ℕ → B)
    → ((i : ℕ) → w (f i) ≡ v (g i))
    → tally w n f ≡ tally v n g
unfolding tally
tally-same w v zero f g h = refl
tally-same w v (suc n) f g h = omega (arith, h n, tally-same w v n f g h)

pub tally-add {ℓ} :
    {A : Type ℓ} (w v : A → ℕ) (n : ℕ) (f : ℕ → A)
    → tally (λ a. w a + v a) n f ≡ tally w n f + tally v n f
unfolding tally
tally-add w v zero f = refl
tally-add w v (suc n) f = omega (arith, tally-add w v n f)

pub tally-le {ℓ} :
    {A : Type ℓ} (w v : A → ℕ)
    → ((a : A) → w a ≤ v a)
    → (n : ℕ) (f : ℕ → A) → tally w n f ≤ tally v n f
unfolding tally
tally-le w v h zero f = omega arith
tally-le w v h (suc n) f = omega (arith, h (f n), tally-le w v h n f)

-- A weight that is nowhere above another leaves at least the difference at each thread.
pub tally-dominated {ℓ} :
    {A : Type ℓ} (w v : A → ℕ)
    → ((a : A) → w a ≤ v a)
    → (n : ℕ) (f : ℕ → A) (i : ℕ) → i < n
    → tally w n f + v (f i) ≤ tally v n f + w (f i)
unfolding tally
tally-dominated w v h zero f i lt = absurd (omega arith)
tally-dominated w v h (suc n) f i lt = elim (dec_lt i n) [
  | yes inside ↦ omega (arith, tally-dominated w v h n f i inside, h (f n))
  | no last ↦ let e : i ≡ n = omega arith in rw e (omega (arith, tally-le w v h n f))
]

-- What holds of the new value, and of the others where they stand, holds of the family after a write.
pub put-all {ℓ κ} :
    {A : Type ℓ} (P : ℕ → A → Type κ) (f : ℕ → A) (i : ℕ) (a : A)
    → P i a
    → ((j : ℕ) → i ≢ j → P j (f j))
    → (j : ℕ) → P j (put f i a j)
put-all {A} P f i a here there j = elim (dec_eq i j) [
  | inl same ↦ subst (λ k. P k (put f i a k)) same (subst (P i) (sym (put_self f i a)) here)
  | inr (ne, e) ↦ subst (P j) (sym e) (there j ne)
]
  where
    put_self : (f : ℕ → A) (i : ℕ) (a : A) → put f i a i ≡ a
    put_self f i a = ground arith

    dec_eq : (i j : ℕ) → (i ≡ j) ⊎ ((i ≢ j) × (put f i a j ≡ f j))
    dec_eq i j = elim (ℕ_discrete i j) [ yes same ↦ inl same | no ne ↦ inr (ne, ground arith) ]
