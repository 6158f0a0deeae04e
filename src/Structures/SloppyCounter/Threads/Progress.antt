-- ===== src/Structures/SloppyCounter/Threads/Progress.antt =====
-- As long as a thread of sloppy-counter.c has not ended, one can go on.
use c_advanced_problems.Prelude.{
  ℕ, zero, suc, ◌<◌, ◌≡◌, refl, ◌∙◌, ap, subst, none, arith, Bool, true, false, dec_lt, ℕ_discrete,
}
use c_advanced_problems.Prelude.Tally.{tally-pos, tally-lt, tally-suc}
use c_advanced_problems.Structures.SloppyCounter.Threads.{
  Shared, Pc, next_call, lock_local, load_local, store_local, test, lock_global, load_value,
  store_value, unlock_global, reset, unlock_local, ended_thread, create, join, get_lock, get_value,
  get_unlock, printed, step,
}
use c_advanced_problems.Structures.SloppyCounter.Threads.Invariant.{
  holds_global, holds_local, has_ended, Stands, Role, IsSound,
}
use c_advanced_problems.Structures.SloppyCounter.Threads.Totals.{main-quiet}
use c_advanced_problems.Sync.Interleaving.{System}
use c_advanced_problems.Sync.Termination.{can_step, waits-unless, goes-when, goes-anyway}

abbrev pub is_finished : Pc → Bool
is_finished ended_thread = true
is_finished (printed rc) = true
is_finished _ = false

-- Where a thread may wait for more than the lock of the whole.
abbrev waits_longer : Pc → Bool
waits_longer (next_call who left) = true
waits_longer (lock_local who left id) = true
waits_longer join = true
waits_longer _ = false

module _ (n max t : ℕ) (found : (who left : ℕ) → ℕ) where
  pub finished-stays : (m : Shared) (p : Pc) → is_finished p ≡ true → step n max t found m p ≡ none
  unfolding step
  finished-stays m ended_thread e = refl
  finished-stays m (printed rc) e = refl
  finished-stays m _ e = absurd cc

  global-steps :
      (m : Shared) (p : Pc) → 0 < holds_global p → can_step (step n max t found) m p ≡ true
  unfolding step
  global-steps m (load_value who left id) h = refl
  global-steps m (store_value who left id part loaded) h = refl
  global-steps m (unlock_global who left id part) h = refl
  global-steps m get_value h = refl
  global-steps m (get_unlock rc) h = refl
  global-steps m _ h = absurd (omega (arith, h))

  local-steps :
      (j : ℕ) (m : Shared) (p : Pc)
      → 0 < holds_local j p
      → 0 < m.globallock
      → can_step (step n max t found) m p ≡ true
  unfolding step
  local-steps j m (load_local who left id) h g = refl
  local-steps j m (store_local who left id loaded) h g = refl
  local-steps j m (test who left id) h g = refl
  local-steps j m (lock_global who left id) h g = waits-unless _ _ _ (ground (arith, g))
  local-steps j m (load_value who left id) h g = refl
  local-steps j m (store_value who left id part loaded) h g = refl
  local-steps j m (unlock_global who left id part) h g = refl
  local-steps j m (reset who left id part) h g = refl
  local-steps j m (unlock_local who left id) h g = refl
  local-steps j m _ h g = absurd (omega (arith, h))

  created-steps :
      (m : Shared) (who left : ℕ)
      → who < m.created
      → can_step (step n max t found) m (next_call who left) ≡ true
  unfolding step
  created-steps m who zero h = goes-when _ _ _ (ground (arith, h))
  created-steps m who (suc left) h = goes-when _ _ _ (ground (arith, h))

  unlocked-steps :
      (m : Shared) (who left id : ℕ)
      → 0 < m.locallock id
      → can_step (step n max t found) m (lock_local who left id) ≡ true
  unfolding step
  unlocked-steps m who left id h = waits-unless _ _ _ (ground (arith, h))

  -- Every statement that waits for no more than the lock of the whole.
  others-step :
      (m : Shared) (p : Pc)
      → is_finished p ≡ false
      → waits_longer p ≡ false
      → 0 < m.globallock
      → can_step (step n max t found) m p ≡ true
  unfolding step
  others-step m (lock_global who left id) f w g = waits-unless _ _ _ (ground (arith, g))
  others-step m get_lock f w g = waits-unless _ _ _ (ground (arith, g))
  others-step m (create i) f w g = goes-anyway _ _ _ _ _
  others-step m (next_call who left) f w g = absurd cc
  others-step m _ f w g = ground arith

  -- `main`, as long as it creates threads.
  creating-steps :
      (m : Shared) (p : Pc)
      → Role n max t m n p
      → m.created < n
      → can_step (step n max t found) m p ≡ true
  unfolding step
  creating-steps m (create i) (a, (b, c)) h = goes-anyway _ _ _ _ _
  creating-steps m join r h = absurd (omega (arith, h))
  creating-steps m get_lock r h = absurd (omega (arith, h))
  creating-steps m get_value r h = absurd (omega (arith, h))
  creating-steps m (get_unlock rc) r h = absurd (omega (arith, h))
  creating-steps m (printed rc) r h = absurd (omega (arith, h))
  creating-steps m _ r h = absurd (omega (arith, r))

  joined-steps : (m : Shared) → ¬ (m.ended < n) → can_step (step n max t found) m join ≡ true
  unfolding step
  joined-steps m h = waits-unless _ _ _ (ground (arith, h))

  module _ (s : System Shared Pc) (c : IsSound n max t s) where
    abbrev CanGoOn : Type 0
    CanGoOn = (j : ℕ) × (j < suc n) × (can_step (step n max t found) s.shared (s.pc j) ≡ true)

    here :
        (i : ℕ) (p : Pc)
        → i < suc n
        → s.pc i ≡ p
        → can_step (step n max t found) s.shared p ≡ true
        → CanGoOn
    here i p h at e = (i, h, ap (can_step (step n max t found) s.shared) at ∙ e)

    global-goes : s.shared.globallock ≡ 0 → CanGoOn
    global-goes e =
        let (j, h, w) = tally-pos holds_global (suc n) s.pc (omega (arith, e, c.global_held)) in
        (j, h, global-steps s.shared (s.pc j) w)

    local-goes : (j : ℕ) → j < n → s.shared.locallock j ≡ 0 → 0 < s.shared.globallock → CanGoOn
    local-goes j lt e g =
        let (k, h, w) =
          tally-pos (holds_local j) (suc n) s.pc (omega (arith, e, c.local_held j lt)) in
        (k, h, local-steps j s.shared (s.pc k) w g)

    -- A thread that has not ended.
    worker-goes :
        (i : ℕ) (p : Pc)
        → s.pc i ≡ p
        → i < n
        → is_finished p ≡ false
        → 0 < s.shared.globallock
        → CanGoOn
    worker-goes i (next_call who left) at h e g =
        let (a, same) = subst (Role n max t s.shared i) at (c.roles i (omega arith)) in
        elim (dec_lt who s.shared.created) [
          | yes made ↦
              here i (next_call who left) (omega arith) at (created-steps s.shared who left made)
          | no unmade ↦ (
            n,
            omega arith,
            creating-steps s.shared (s.pc n) (c.roles n (omega arith)) (omega (arith, unmade)),
          )
        ]
    worker-goes i (lock_local who left id) at h e g =
        let st = subst (Stands n max t s.shared) at (c.stands i (omega arith)) in
        elim (ℕ_discrete (s.shared.locallock id) 0) [
          | yes held ↦ local-goes id st held g
          | no free ↦
              here i (lock_local who left id) (omega arith) at
                (unlocked-steps s.shared who left id (omega (arith, free)))
        ]
    worker-goes i join at h e g =
        let (same, r) = subst (Role n max t s.shared i) at (c.roles i (omega arith)) in
        absurd (omega (arith, h, same))
    worker-goes i p at h e g = here i p (omega arith) at (others-step s.shared p e refl g)

    unfinished :
        (i : ℕ) (q : Pc)
        → i < n
        → Role n max t s.shared i q
        → has_ended q ≡ 0
        → is_finished q ≡ false
    unfinished i ended_thread h r e = absurd (omega (arith, e))
    unfinished i (printed rc) h r e = absurd (omega (arith, h, r))
    unfinished i _ h r e = refl

    -- `main`.
    main-goes : (p : Pc) → s.pc n ≡ p → is_finished p ≡ false → 0 < s.shared.globallock → CanGoOn
    main-goes join at e g = elim (dec_lt s.shared.ended n) [
      | yes wait ↦
          let (a, r) = main-quiet n max t found s.shared (s.pc n) (c.roles n (omega arith)) in
          let all = c.endings ∙ tally-suc has_ended n s.pc in
          let (i, h, w) = tally-lt has_ended n s.pc (omega (arith, wait)) in
          worker-goes i (s.pc i) refl h (unfinished i (s.pc i) h (c.roles i (omega arith)) w) g
      | no done ↦ here n join (omega arith) at (joined-steps s.shared done)
    ]
    main-goes (next_call who left) at e g =
        let r = subst (Role n max t s.shared n) at (c.roles n (omega arith)) in
        absurd (omega (arith, r))
    main-goes (lock_local who left id) at e g =
        let r = subst (Role n max t s.shared n) at (c.roles n (omega arith)) in
        absurd (omega (arith, r))
    main-goes p at e g = here n p (omega arith) at (others-step s.shared p e refl g)

    -- As long as a thread has not ended, one can go on.
    pub progress : (i : ℕ) → i < suc n → is_finished (s.pc i) ≡ false → CanGoOn
    progress i h e = elim (dec_lt 0 s.shared.globallock) [
      | no held ↦ global-goes (omega (arith, held))
      | yes free ↦ elim (dec_lt i n) [
        | yes worker ↦ worker-goes i (s.pc i) refl worker e free
        | no last ↦
            let same : i ≡ n = omega arith in
            main-goes (s.pc n) refl (subst (λ j. is_finished (s.pc j) ≡ false) same e) free
      ]
    ]
