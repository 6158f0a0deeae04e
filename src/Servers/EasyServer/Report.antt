-- ===== src/Servers/EasyServer/Report.antt =====
-- The text that `print_info` leaves in the buffer.
use c_advanced_problems.Prelude.{
  ℕ, suc, ◌+◌, ◌*◌, ◌^◌, ◌<◌, ◌≤◌, ◌≡◌, refl, sym, subst, ap, ◌∙◌, true, some, List, [], ◌∷◌, ◌++◌,
  ltb, length, take, drop, length-take, length-drop, length-append, arith,
}
use mathlib.Core.List.{append-nil, append_assoc}
use c_advanced_problems.Driver.User.{codes}
use c_advanced_problems.Servers.Text.{concat}
use c_advanced_problems.Servers.World.{◌>>=◌}
use c_advanced_problems.Servers.EasyServer.{
  buffer_size, Info, Tx, sprintf_at, sprintf_all, text_line, lines, print_info,
}

-- `text` is in the buffer, in front of the place of the next `sprintf`.
pub record Holds (text : List ℕ) (t : Tx) : Type 0 where
  pub written : take t.size t.memory ≡ text
  pub size : t.size ≡ length text
  pub whole : length t.memory ≡ buffer_size

take-length : (xs ys : List ℕ) → take (length xs) (xs ++ ys) ≡ xs
take-length [] ys = refl
take-length (x ∷ xs) ys = ap (λ t. x ∷ t) (take-length xs ys)

take-length_append : (xs ys zs : List ℕ) → take (length (xs ++ ys)) (xs ++ (ys ++ zs)) ≡ xs ++ ys
take-length_append xs ys zs =
    subst (λ all. take (length (xs ++ ys)) all ≡ xs ++ ys) (append_assoc xs ys zs)
      (take-length (xs ++ ys) zs)

-- The buffer is as long as before.
length-filled :
    (memory more : List ℕ) (n : ℕ)
    → n + length more < length memory
    → length (take n memory ++ (more ++ 0 ∷ drop (suc (n + length more)) memory)) ≡ length memory
length-filled memory more n h =
    rw
      (
        length-append (take n memory) (more ++ 0 ∷ drop (suc (n + length more)) memory),
        length-append more (0 ∷ drop (suc (n + length more)) memory),
        length-take n memory,
        length-drop (suc (n + length more)) memory,
      )
      (omega (arith, h))

-- A text with its NUL that fits behind what is there is put there.
sprintf_at-Holds :
    (text more : List ℕ) (t : Tx)
    → Holds text t
    → length text + length more < buffer_size
    → (t' : Tx) × (sprintf_at more t ≡ some t') × Holds (text ++ more) t'
unfolding sprintf_at
sprintf_at-Holds text more t h fits =
    let after : Tx = record {
      memory = take t.size t.memory ++ (more ++ 0 ∷ drop (suc (t.size + length more)) t.memory);
      size = t.size + length more;
    } in
    let room : ltb (t.size + length more) (length t.memory) ≡ true =
      rw (h.size, h.whole) (ground (arith, fits)) in
    let fill : length (text ++ more) ≡ t.size + length more =
      rw (length-append text more, h.size) refl in
    (
      after,
      rw room,
      record {
        written = rw (h.written, sym fill) (take-length_append text more _);
        size = sym fill;
        whole = length-filled t.memory more t.size (rw (h.size, h.whole) fits) ∙ h.whole;
      },
    )

sprintf_all-Holds :
    (text : List ℕ) (texts : List (List ℕ)) (t : Tx)
    → Holds text t
    → length text + length (concat texts) < buffer_size
    → (t' : Tx) × (sprintf_all texts t ≡ some t') × Holds (text ++ concat texts) t'
unfolding sprintf_all
sprintf_all-Holds text [] t h fits = (t, refl, subst (λ x. Holds x t) (sym (append-nil text)) h)
sprintf_all-Holds text (more ∷ texts) t h fits =
    let split : length (more ++ concat texts) ≡ length more + length (concat texts) =
      length-append more (concat texts) in
    let (t₁, e₁, h₁) = sprintf_at-Holds text more t h (omega (arith, fits, split)) in
    let joined : length (text ++ more) ≡ length text + length more = length-append text more in
    let (t₂, e₂, h₂) =
      sprintf_all-Holds (text ++ more) texts t₁ h₁ (omega (arith, fits, split, joined)) in
    (t₂, rw e₁ e₂, subst (λ x. Holds x t₂) (append_assoc text more (concat texts)) h₂)

-- Lines of at most 300 characters.
abbrev AreShort : List (List ℕ) → Type 0
AreShort [] = Unit
AreShort (text ∷ texts) = (length text ≤ 300) × AreShort texts

length-concat :
    (texts : List (List ℕ)) → AreShort texts → length (concat texts) ≤ 300 * length texts
length-concat [] s = omega arith
length-concat (text ∷ texts) (h, s) =
    let split : length (text ++ concat texts) ≡ length text + length (concat texts) =
      length-append text (concat texts) in
    omega (arith, h, split, length-concat texts s)

length-text_line :
    (label value unit : List ℕ)
    → length label ≤ 20
    → length value < 255
    → length unit ≤ 20
    → length (text_line label value unit) ≤ 300
length-text_line label value unit l v u =
    rw
      (
        length-append label (value ++ (unit ++ 10 ∷ [])),
        length-append value (unit ++ 10 ∷ []),
        length-append unit (10 ∷ []),
      )
      (omega (arith, l, v, u))

-- Numbers of machine words.
pub record IsInfo (info : Info) : Type 0 where
  pub uptime : info.uptime < 2 ^ 64
  pub procs : info.procs < 2 ^ 64
  pub totalram : info.totalram < 2 ^ 64
  pub freeram : info.freeram < 2 ^ 64
  pub mem_unit : info.mem_unit < 2 ^ 64

at_most_twenty : {n : ℕ} → n ≤ 20 → n < 255
at_most_twenty h = omega (arith, h)

from_zero : {n k : ℕ} → n < k → 0 + n < k
from_zero h = omega (arith, h)

below_buffer : {n : ℕ} → n ≤ 300 * 6 → n < buffer_size
below_buffer h = omega (arith, h)

module _ (decimal : ℕ → List ℕ) where
  -- A number of a machine word has at most twenty digits.
  abbrev pub IsDecimal : Type 0
  IsDecimal = (n : ℕ) → n < 2 ^ 64 → length (decimal n) ≤ 20

  -- The text that is to be sent.
  abbrev pub report : Info → (name : List ℕ) → List ℕ
  report info name = concat (lines decimal info name)

  length-report :
      (info : Info) (name : List ℕ)
      → IsDecimal
      → IsInfo info
      → length name < 255
      → length (report info name) < buffer_size
  length-report info name d i n =
      let digits : (k : ℕ) → k < 2 ^ 64 → length (decimal k) < 255 =
        λ k h. at_most_twenty (d k h) in
      let all : AreShort (lines decimal info name) = (
        length-text_line (codes "Hostname: ") name [] (omega arith) n (omega arith),
        (
          length-text_line (codes "Uptime: ") _ (codes " second(s)") (omega arith)
              (digits _ i.uptime) (omega arith),
          (
            length-text_line (codes "Process count: ") _ [] (omega arith) (digits _ i.procs)
                (omega arith),
            (
              length-text_line (codes "Total RAM: ") _ (codes " Byte(s)") (omega arith)
                  (digits _ i.totalram) (omega arith),
              (
                length-text_line (codes "Free RAM: ") _ (codes " Byte(s)") (omega arith)
                    (digits _ i.freeram) (omega arith),
                (
                  length-text_line (codes "Page size: ") _ (codes " Byte(s)") (omega arith)
                      (digits _ i.mem_unit) (omega arith),
                  tt,
                ),
              ),
            ),
          ),
        ),
      ) in
      below_buffer (length-concat (lines decimal info name) all)

  -- Where `printf` writes at most twenty digits for a number of a machine word, the host name has at
  -- most 254 characters and the numbers are those of machine words, `print_info` stays within the 2048
  -- bytes of the buffer, returns 0 and leaves its six lines there, of the length that it reports.
  pub print_info-report :
      (info : Info) (name memory : List ℕ)
      → IsDecimal
      → IsInfo info
      → length name < 255
      → length memory ≡ buffer_size
      → (t : Tx) × (print_info decimal (some info) (some name) memory ≡ some (t, 0))
        × Holds (report info name) t
  unfolding print_info
  print_info-report info name memory d i n whole =
      let (t, e, h) =
        sprintf_all-Holds [] (lines decimal info name) (record { memory = memory; size = 0 })
          (record { written = refl; size = refl; whole = whole })
          (from_zero (length-report info name d i n)) in
      (t, ap (λ o. o >>= (λ u. some (u, 0))) e, h)
