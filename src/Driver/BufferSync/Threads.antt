-- ===== src/Driver/BufferSync/Threads.antt =====
-- Readers and writers of mybuffer_sync interleaved, any number of each. The locks let one reader and
-- one writer at a time between the atomic operations, so that the state names where these two are.
use c_advanced_problems.Prelude.{ℕ, ◌+◌, ◌≤◌, ◌≡◌, arith}
use c_advanced_problems.Driver.BufferSync.{
  Shared, loaded, max_buffer_size, read_copy, read_sub, read_add, write_copy, write_store,
  write_sub, write_add,
}

-- Where the thread in the lock is, with the number of bytes that it has copied.
pub data Phase : Type 0 where
  unlocked : Phase  -- the lock is free
  copied : ℕ → Phase  -- before `atomic_sub`
  between : ℕ → Phase  -- between `atomic_sub` and `atomic_add`

pub record System : Type 0 where
  pub shared : Shared
  pub reader : Phase
  pub writer : Phase

-- One atomic operation of one thread. The sizes, the programs' memory and what the kernel copies are
-- left open, and so is which thread moves.
pub data Step (s : System) : System → Type 0 where
  enter_read :
      (copy : ℕ → ℕ) (count : ℕ)
      → s.reader ≡ unlocked
      → Step s (record s { reader = copied (read_copy copy count s.shared) })
  sub_read :
      (n : ℕ)
      → s.reader ≡ copied n
      → Step s (record s { shared = read_sub n s.shared; reader = between n })
  add_read :
      (n : ℕ)
      → s.reader ≡ between n
      → Step s (record s { shared = read_add n s.shared; reader = unlocked })
  enter_write :
      (copy : ℕ → ℕ) (user : ℕ → ℕ) (count : ℕ)
      → s.writer ≡ unlocked
      → Step s (record s {
        shared = write_store user (write_copy copy count s.shared) s.shared;
        writer = copied (write_copy copy count s.shared);
      })
  sub_write :
      (n : ℕ)
      → s.writer ≡ copied n
      → Step s (record s { shared = write_sub n s.shared; writer = between n })
  add_write :
      (n : ℕ)
      → s.writer ≡ between n
      → Step s (record s { shared = write_add n s.shared; writer = unlocked })

abbrev pub start : System
start = record { shared = loaded; reader = unlocked; writer = unlocked }

pub data Reach : System → Type 0 where
  here : Reach start
  next : {s t : System} → Reach s → Step s t → Reach t

-- Bytes that have left one counter and have not reached the other.
abbrev pub in_flight : Phase → ℕ
in_flight unlocked = 0
in_flight (copied n) = 0
in_flight (between n) = n

-- Bytes that are about to leave a counter.
abbrev pub pending : Phase → ℕ
pending unlocked = 0
pending (copied n) = n
pending (between n) = 0

pub record IsConserved (s : System) : Type 0 where
  pub total :
      s.shared.available + s.shared.writable + in_flight s.reader + in_flight s.writer
      ≡ max_buffer_size
  pub readable : pending s.reader ≤ s.shared.available
  pub room : pending s.writer ≤ s.shared.writable

Step-IsConserved : {s t : System} → Step s t → IsConserved s → IsConserved t
Step-IsConserved (enter_read copy count e) h = ground arith
Step-IsConserved (sub_read n e) h = ground arith
Step-IsConserved (add_read n e) h = ground arith
Step-IsConserved (enter_write copy user count e) h = ground arith
Step-IsConserved (sub_write n e) h = ground arith
Step-IsConserved (add_write n e) h = ground arith

-- However readers and writers interleave, no byte of the 32 is lost or counted twice: the two
-- counters and the bytes on the way between them add up to 32, and neither counter is ever reduced
-- below 0.
pub Reach-IsConserved : {s : System} → Reach s → IsConserved s
Reach-IsConserved here = omega arith
Reach-IsConserved (next r st) = Step-IsConserved st (Reach-IsConserved r)
