-- ===== src/Structures/SloppyCounter/Threads/Invariant.antt =====
-- The locks of sloppy-counter.c against where the threads stand, and what is left to count.
use c_advanced_problems.Prelude.{ℕ, suc, ◌+◌, ◌*◌, ◌≤◌, ◌<◌, ◌≡◌, if◌then◌else◌, ◌==◌}
use c_advanced_problems.Prelude.Tally.{tally}
use c_advanced_problems.Structures.SloppyCounter.Threads.{
  Shared, Pc, next_call, lock_local, load_local, store_local, test, lock_global, load_value,
  store_value, unlock_global, reset, unlock_local, ended_thread, create, join, get_lock, get_value,
  get_unlock, printed,
}
use c_advanced_problems.Sync.Interleaving.{System}

-- 1 where the thread holds `globallock`.
abbrev pub holds_global : Pc → ℕ
holds_global (load_value who left id) = 1
holds_global (store_value who left id part loaded) = 1
holds_global (unlock_global who left id part) = 1
holds_global get_value = 1
holds_global (get_unlock rc) = 1
holds_global _ = 0

-- 1 where the thread holds the lock of part `j`.
abbrev pub holds_local : (j : ℕ) → Pc → ℕ
holds_local j (load_local who left id) = if id == j then 1 else 0
holds_local j (store_local who left id loaded) = if id == j then 1 else 0
holds_local j (test who left id) = if id == j then 1 else 0
holds_local j (lock_global who left id) = if id == j then 1 else 0
holds_local j (load_value who left id) = if id == j then 1 else 0
holds_local j (store_value who left id part loaded) = if id == j then 1 else 0
holds_local j (unlock_global who left id part) = if id == j then 1 else 0
holds_local j (reset who left id part) = if id == j then 1 else 0
holds_local j (unlock_local who left id) = if id == j then 1 else 0
holds_local j _ = 0

-- What the thread has added to the whole and not yet taken from its part.
abbrev pub doubled : Pc → ℕ
doubled (unlock_global who left id part) = part
doubled (reset who left id part) = part
doubled _ = 0

-- How often the thread is still to count.
abbrev pub to_count : Pc → ℕ
to_count (next_call who left) = left
to_count (lock_local who left id) = left + 1
to_count (load_local who left id) = left + 1
to_count (store_local who left id loaded) = left + 1
to_count (test who left id) = left
to_count (lock_global who left id) = left
to_count (load_value who left id) = left
to_count (store_value who left id part loaded) = left
to_count (unlock_global who left id part) = left
to_count (reset who left id part) = left
to_count (unlock_local who left id) = left
to_count _ = 0

-- 1 once the thread has ended.
abbrev pub has_ended : Pc → ℕ
has_ended ended_thread = 1
has_ended _ = 0

module _ (threads max threshold : ℕ) where
  -- What a thread relies on where it stands.
  abbrev pub Stands : Shared → Pc → Type 0
  Stands m (lock_local who left id) = id < threads
  Stands m (load_local who left id) = (id < threads) × (m.local id < threshold)
  Stands m (store_local who left id loaded) =
      (id < threads) × ((m.local id ≡ loaded) × (loaded < threshold))
  Stands m (test who left id) = (id < threads) × (m.local id ≤ threshold)
  Stands m (lock_global who left id) = id < threads
  Stands m (load_value who left id) = id < threads
  Stands m (store_value who left id part loaded) =
      (id < threads) × ((m.local id ≡ part) × (m.value ≡ loaded))
  Stands m (unlock_global who left id part) = (id < threads) × (m.local id ≡ part)
  Stands m (reset who left id part) = (id < threads) × (m.local id ≡ part)
  Stands m (unlock_local who left id) = (id < threads) × (m.local id < threshold)
  Stands m _ = Unit

  -- Which thread stands where, with how many threads `main` has created, and what it has read.
  abbrev pub Role : Shared → (i : ℕ) → Pc → Type 0
  Role m i (next_call who left) = (i < threads) × (who ≡ i)
  Role m i (create k) = (i ≡ threads) × ((m.created ≡ k) × (k ≤ threads))
  Role m i join = (i ≡ threads) × (m.created ≡ threads)
  Role m i get_lock = (i ≡ threads) × ((m.created ≡ threads) × (threads ≤ m.ended))
  Role m i get_value = (i ≡ threads) × ((m.created ≡ threads) × (threads ≤ m.ended))
  Role m i (get_unlock rc) =
      (i ≡ threads)
      × ((m.created ≡ threads)
          × ((rc ≤ threads * max) × (threads * max + threads ≤ rc + threads * threshold)))
  Role m i (printed rc) =
      (i ≡ threads)
      × ((m.created ≡ threads)
          × ((rc ≤ threads * max) × (threads * max + threads ≤ rc + threads * threshold)))
  Role m i ended_thread = i < threads
  Role m i (lock_local who left id) = (i < threads) × (who ≡ i)
  Role m i (load_local who left id) = (i < threads) × (who ≡ i)
  Role m i (store_local who left id loaded) = (i < threads) × (who ≡ i)
  Role m i (test who left id) = (i < threads) × (who ≡ i)
  Role m i (lock_global who left id) = (i < threads) × (who ≡ i)
  Role m i (load_value who left id) = (i < threads) × (who ≡ i)
  Role m i (store_value who left id part loaded) = (i < threads) × (who ≡ i)
  Role m i (unlock_global who left id part) = (i < threads) × (who ≡ i)
  Role m i (reset who left id part) = (i < threads) × (who ≡ i)
  Role m i (unlock_local who left id) = (i < threads) × (who ≡ i)

  pub record IsSound (s : System Shared Pc) : Type 0 where
    pub global_held : s.shared.globallock + tally holds_global (suc threads) s.pc ≡ 1
    pub local_held :
        (j : ℕ) → j < threads → s.shared.locallock j + tally (holds_local j) (suc threads) s.pc ≡ 1
    pub small : (j : ℕ) → j < threads → s.shared.locallock j ≡ 1 → s.shared.local j < threshold
    pub stands : (i : ℕ) → i < suc threads → Stands s.shared (s.pc i)
    pub roles : (i : ℕ) → i < suc threads → Role s.shared i (s.pc i)
    pub balance :
        s.shared.value + tally (λ v. v) threads s.shared.local + tally to_count (suc threads) s.pc
        ≡ threads * max + tally doubled (suc threads) s.pc
    pub endings : s.shared.ended ≡ tally has_ended (suc threads) s.pc
