-- ===== src/Servers/Text/Laws.antt =====
-- What the string functions find in a buffer that is filled with a request.
use c_advanced_problems.Prelude.{
  ℕ, suc, ◌-◌, ◌<◌, ◌≡◌, none, refl, sym, subst, true, false, Bool-cases, Option-cases, inl, inr,
  some, List, [], ◌∷◌, ◌++◌, if◌then◌else◌, ◌==◌, ◌||◌, length, set, drop, replicate, arith,
}
use c_advanced_problems.Servers.Text.{string_at, strchr, filled, cut_line}

-- The bytes of a request in front of the first newline or NUL.
unfoldable pub line : List ℕ → List ℕ
line [] = []
line (b ∷ bs) = if b == b'\n' || b == 0 then [] else b ∷ line bs

cut_line-skip :
    (b : ℕ) (bs : List ℕ)
    → (b == b'\n') ≡ false
    → (b == 0) ≡ false
    → cut_line (b ∷ bs) ≡ b ∷ cut_line bs
unfolding strchr cut_line
cut_line-skip b bs n z = elim (Option-cases (strchr bs b'\n')) [
  | inl e ↦ rw (n, z, e, cut_line, strchr)
  | inr (i, e) ↦ rw (n, z, e, cut_line, strchr)
]

cut_line-end :
    (b : ℕ) (bs : List ℕ)
    → (b == b'\n') || (b == 0) ≡ true
    → string_at (cut_line (b ∷ bs)) ≡ some []
unfolding strchr cut_line string_at
cut_line-end b bs h = elim (Bool-cases (b == b'\n')) [
  | inl n ↦ rw (n, cut_line, strchr) refl
  | inr n ↦ elim (Bool-cases (b == 0)) [
    | inl z ↦ rw (n, z, cut_line, strchr) (rw (z, string_at))
    | inr z ↦ ground (arith, h, n, z)
  ]
]

-- Where the buffer holds a NUL behind the request, what is left of it is its first line.
string_at-cut_line_nul :
    (bytes rest : List ℕ) → string_at (cut_line (bytes ++ 0 ∷ rest)) ≡ some (line bytes)
unfolding string_at line
string_at-cut_line_nul [] rest = cut_line-end 0 rest refl
string_at-cut_line_nul (b ∷ bs) rest = elim (Bool-cases (b == b'\n' || b == 0)) [
  | inl stop ↦ rw stop (cut_line-end b (bs ++ 0 ∷ rest) stop)
  | inr go ↦
      let n : (b == b'\n') ≡ false = ground (arith, go) in
      let z : (b == 0) ≡ false = ground (arith, go) in
      rw (go, cut_line-skip b (bs ++ 0 ∷ rest) n z, string_at)
        (rw (z, string_at-cut_line_nul bs rest))
]

-- A request that leaves room for a NUL is cut to its first line, whatever is behind the buffer.
pub string_at-cut_line :
    (size : ℕ) (bytes beyond : List ℕ)
    → length bytes < size
    → string_at (cut_line (filled size bytes beyond)) ≡ some (line bytes)
string_at-cut_line size bytes beyond h =
    let e : size - length bytes ≡ suc (size - length bytes - 1) = omega arith in
    rw e (string_at-cut_line_nul bytes (replicate (size - length bytes - 1) 0 ++ beyond))

-- Text in front of a NUL.
abbrev pub HasNoNul : List ℕ → Type 0
HasNoNul [] = Unit
HasNoNul (b ∷ bs) = ((b == 0) ≡ false) × HasNoNul bs

pub string_at-nul : (text rest : List ℕ) → HasNoNul text → string_at (text ++ 0 ∷ rest) ≡ some text
unfolding string_at
string_at-nul [] rest h = refl
string_at-nul (b ∷ bs) rest (z, h) = rw (z, string_at-nul bs rest h)

pub string_at-none : (bytes : List ℕ) → HasNoNul bytes → string_at bytes ≡ none
unfolding string_at
string_at-none [] h = refl
string_at-none (b ∷ bs) (z, h) = rw (z, string_at-none bs h)

pub string_at-some :
    (bytes rest : List ℕ) → (text : List ℕ) × (string_at (bytes ++ 0 ∷ rest) ≡ some text)
unfolding string_at
string_at-some [] rest = ([], refl)
string_at-some (b ∷ bs) rest = elim (Bool-cases (b == 0)) [
  | inl stop ↦ ([], rw stop)
  | inr go ↦ let (text, e) = string_at-some bs rest in (b ∷ text, rw (go, e))
]

-- The whole buffer is a C string too.
pub string_at-filled :
    (size : ℕ) (bytes beyond : List ℕ)
    → length bytes < size
    → (text : List ℕ) × (string_at (filled size bytes beyond) ≡ some text)
string_at-filled size bytes beyond h =
    let e : size - length bytes ≡ suc (size - length bytes - 1) = omega arith in
    rw e (string_at-some bytes (replicate (size - length bytes - 1) 0 ++ beyond))

-- Where a character is found behind the first one.
strchr-suc :
    (b c : ℕ) (bs : List ℕ) (i : ℕ)
    → (b == c) ≡ false
    → strchr (b ∷ bs) c ≡ some i
    → (j : ℕ) × (strchr bs c ≡ some j) × (i ≡ suc j)
unfolding strchr
strchr-suc b c bs i miss e = elim (Option-cases (strchr bs c)) [
  | inl n ↦ ground (arith, miss, e, n)
  | inr (j, s) ↦ (j, s, ground (arith, miss, e, s))
]

strchr-hit : (b c : ℕ) (bs : List ℕ) → (b == c) ≡ true → strchr (b ∷ bs) c ≡ some 0
unfolding strchr
strchr-hit b c bs hit = rw hit refl

-- The string at the place where a character is overwritten with a NUL.
pub string_at-strchr :
    (bytes : List ℕ) (c i : ℕ)
    → strchr bytes c ≡ some i
    → string_at (drop i (set bytes i 0)) ≡ some []
unfolding strchr
string_at-strchr [] c i e = ground (arith, e)
string_at-strchr (b ∷ bs) c i e = elim (Bool-cases (b == c)) [
  | inl hit ↦
      let z : 0 ≡ i = ground (arith, strchr-hit b c bs hit, e) in
      subst (λ k. string_at (drop k (set (b ∷ bs) k 0)) ≡ some []) z (string_at-nul [] bs tt)
  | inr miss ↦
      let (j, s, z) = strchr-suc b c bs i miss e in
      subst (λ k. string_at (drop k (set (b ∷ bs) k 0)) ≡ some []) (sym z)
        (string_at-strchr bs c j s)
]
