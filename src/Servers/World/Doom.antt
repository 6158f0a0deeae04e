-- ===== src/Servers/World/Doom.antt =====
-- What the loop of a server comes to once its block has been released.
use c_advanced_problems.Prelude.{
  ℕ, zero, suc, ◌++◌, replicate, ◌≡◌, refl, ap, ◌∙◌, inl, inr, Bool, true, false, Option, none,
  some, List, ◌∷◌, if◌then◌else◌, Bool-cases,
}
use c_advanced_problems.Servers.World.{
  World, Turn, ◌>>=◌, touch, clean_exit, close_client, selecting, noticing, round, loop,
}

-- Undefined behaviour, or a world whose block has been released.
abbrev pub IsDoomed : Option World → Type 0
IsDoomed none = Unit
IsDoomed (some w) = w.allocated ≡ false

-- With any step that no released block survives alive.
abbrev pub KeepsDoom : (World → Option World) → Type 0
KeepsDoom f = (w : World) → w.allocated ≡ false → IsDoomed (f w)

pub any->>=-IsDoomed :
    {A : Type 0} (o : Option A) (f : A → Option World)
    → ((a : A) → IsDoomed (f a))
    → IsDoomed (o >>= f)
any->>=-IsDoomed none f h = tt
any->>=-IsDoomed (some a) f h = h a

pub >>=-IsDoomed :
    (o : Option World) (f : World → Option World) → IsDoomed o → KeepsDoom f → IsDoomed (o >>= f)
>>=-IsDoomed none f d keeps = tt
>>=-IsDoomed (some w) f d keeps = keeps w d

pub clean_exit-IsDoomed : (w : World) → IsDoomed (clean_exit w)
clean_exit-IsDoomed w = elim (Bool-cases w.allocated) [ inl e ↦ rw e refl | inr e ↦ rw e tt ]

pub close_client-allocated : (w : World) → (close_client w).allocated ≡ w.allocated
close_client-allocated w = elim (Bool-cases w.connected) [ inl e ↦ rw e refl | inr e ↦ rw e refl ]

touch-released : (w : World) → w.allocated ≡ false → touch w ≡ none
touch-released w e = rw e

if-none : (b : Bool) {x y : Option World} → x ≡ none → y ≡ none → (if b then x else y) ≡ none
if-none true p q = p
if-none false p q = q

module _ {R : Type 0} (serve : R → World → Option World) where
  -- `round` once `select` has returned.
  abbrev after_select : Turn R → World → Option World
  after_select t w =
      touch (noticing t w) >>= (λ w₁. if t.ready then serve t.request w₁ else some w₁)

  after_select-released : (t : Turn R) (w : World) → w.allocated ≡ false → after_select t w ≡ none
  after_select-released t w e = elim (Bool-cases t.stdin) [
    | inl k ↦ simp (k, e)
    | inr k ↦ simp (k, e)
  ]

  -- A `select` that fails, as where a signal interrupts it, releases the block that the test of the
  -- descriptors uses.
  pub round-refused : (t : Turn R) (w : World) → t.selected ≡ false → round serve t w ≡ none
  unfolding round
  round-refused t w refused = elim (Bool-cases w.allocated) [
    | inl a ↦ simp (a, refused, after_select-released t (record w { allocated = false }) refl)
    | inr a ↦ simp a
  ]

  pub round-IsDoomed :
      (t : Turn R) (w : World)
      → t.ready ≡ true
      → ((v : World) → IsDoomed (serve t.request v))
      → IsDoomed (round serve t w)
  unfolding round
  round-IsDoomed t w ready doomed = any->>=-IsDoomed (touch w) _ (λ w₁.
      any->>=-IsDoomed (selecting t w₁) (after_select t)
        (λ w₂. any->>=-IsDoomed (touch (noticing t w₂)) _ (λ w₃. simp ready (doomed w₃))))

  pub loop-released :
      (t : Turn R) (ts : List (Turn R)) (w : World)
      → w.allocated ≡ false
      → loop serve (t ∷ ts) w ≡ none
  unfolding loop round
  loop-released t ts w e = rw e refl

  -- Neither a further round nor the end of the loop can follow.
  pub loop-IsDoomed :
      (t u : Turn R) (ts : List (Turn R)) (w : World)
      → IsDoomed (round serve t w)
      → loop serve (t ∷ u ∷ ts) w ≡ none
  unfolding loop
  loop-IsDoomed t u ts w = go (round serve t w)
    where
      go :
          (o : Option World)
          → IsDoomed o
          → (elim o [
            | none ↦ none
            | some w' ↦ if w'.running then loop serve (u ∷ ts) w' else clean_exit w'
          ])
            ≡ none
      go none h = refl
      go (some w') e = if-none w'.running (loop-released u ts w' e) (rw e)

  -- A round in which nothing happens.
  abbrev pub idle : R → Turn R
  idle r = record { selected = true; stdin = false; ready = false; request = r }

  pub loop-step :
      (t : Turn R) (ts : List (Turn R)) (w w' : World)
      → round serve t w ≡ some w'
      → w'.running ≡ true
      → loop serve (t ∷ ts) w ≡ loop serve ts w'
  unfolding loop
  loop-step t ts w w' e g =
      ap
        (λ o. elim o [ none ↦ none | some v ↦ if v.running then loop serve ts v else clean_exit v ])
        e
      ∙ ap (λ b. if b then loop serve ts w' else clean_exit w') g

  round-idle : (r : R) (w : World) → w.allocated ≡ true → round serve (idle r) w ≡ some w
  unfolding round
  round-idle r w a = simp a

  pub loop-idle :
      (n : ℕ) (r : R) (rest : List (Turn R)) (w : World)
      → w.allocated ≡ true
      → w.running ≡ true
      → loop serve (replicate n (idle r) ++ rest) w ≡ loop serve rest w
  loop-idle zero r rest w a g = refl
  loop-idle (suc n) r rest w a g =
      loop-step (idle r) (replicate n (idle r) ++ rest) w w (round-idle r w a) g
      ∙ loop-idle n r rest w a g
