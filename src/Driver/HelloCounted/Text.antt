-- ===== src/Driver/HelloCounted/Text.antt =====
-- The length of the text that `read_hello` prints, and its digits.
use c_advanced_problems.Prelude.{
  ℕ, zero, suc, ◌+◌, ◌*◌, ◌-◌, ◌/◌, ◌%◌, ◌^◌, ◌≤◌, ◌<◌, ◌≡◌, refl, List, [], ◌∷◌, ◌++◌, arith,
  length, length-append, Bool-cases, inl, inr, ltb,
}
use native.Mathlib.Nat.{pow-suc}
use c_advanced_problems.Driver.HelloCounted.{decimal, text}
use c_advanced_problems.Driver.User.{codes}

-- The number that a list of digits stands for, after the digits read so far.
abbrev pub value : ℕ → List ℕ → ℕ
value acc [] = acc
value acc (d ∷ ds) = value (acc * 10 + (d - b'0')) ds

value-snoc :
    (acc : ℕ) (ds : List ℕ) (d : ℕ) → value acc (ds ++ d ∷ []) ≡ value acc ds * 10 + (d - b'0')
value-snoc acc [] d = refl
value-snoc acc (e ∷ ds) d = value-snoc (acc * 10 + (e - b'0')) ds d

-- `fuel` digits are enough for a number below `10 ^ fuel`.
value-decimal : (fuel n : ℕ) → n < 10 ^ fuel → value 0 (decimal fuel n) ≡ n
unfolding decimal
value-decimal zero n h = omega arith
value-decimal (suc fuel) n h = elim (Bool-cases (ltb n 10)) [
  | inl small ↦ rw small (omega arith)
  | inr large ↦
      rw (large, value-snoc 0 (decimal fuel (n / 10)) _)
        (omega (arith, value-decimal fuel (n / 10) (omega (arith, pow-suc 10 fuel))))
]

pub length-decimal : (fuel n : ℕ) → length (decimal fuel n) ≤ fuel
unfolding decimal
length-decimal zero n = omega arith
length-decimal (suc fuel) n = ground (
  arith,
  length-decimal fuel (n / 10),
  length-append (decimal fuel (n / 10)) ((n % 10 + b'0') ∷ []),
)

pub length-text : (n : ℕ) → length (text n) ≡ 47 + length (decimal 10 n)
unfolding text
length-text n = omega (arith, length-append (decimal 10 n) (codes " bytes so far." ++ 10 ∷ []))

-- For every `int` that is not negative, the text that `read_hello` prints with the counter, its NUL
-- included, fits the 60 bytes allocated for it, and its ten digits at most stand for the counter.
text_fits : (n : ℕ) → n < 2 ^ 31 → (length (text n) + 1 ≤ 60) × (value 0 (decimal 10 n) ≡ n)
text_fits n h =
    (omega (arith, length-text n, length-decimal 10 n), value-decimal 10 n (omega arith))
