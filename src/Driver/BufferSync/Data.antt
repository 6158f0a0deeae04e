-- ===== src/Driver/BufferSync/Data.antt =====
-- The two handlers of mybuffer_sync, one call after another.
use c_advanced_problems.Prelude.{
  ℕ, ◌+◌, ◌-◌, ◌≤◌, ◌≡◌, refl, ◌∙◌, ap, Bool, false, List, [], ◌∷◌, arith, if◌then◌else◌, ltb, min,
  ◌==◌, Option, none, some, ◌<◌,
}
use native.Mathlib.Nat.{zero-add}
use c_advanced_problems.Driver.Kernel.{ok}
use c_advanced_problems.Driver.User.{all_copied}
use c_advanced_problems.Driver.Mybuffer.{slice, overlay}
use c_advanced_problems.Driver.BufferSync.{
  Shared, loaded, max_buffer_size, driver_read, driver_write, read_add, read_sub,
}

-- A call of a handler, with its answers.
pub data Request : Type 0 where
  read : (nonblock interrupted : Bool) → (count offset : ℕ) → Request
  write : (nonblock interrupted : Bool) → (user : ℕ → ℕ) → (count : ℕ) → Request

-- The state that a handler leaves, the old one where it waits.
abbrev pub left : {A : Type 0} → Shared → Option (Shared × A) → Shared
left s none = s
left s (some (s', a)) = s'

pub serve : (ℕ → ℕ) → Shared → Request → Shared
serve copy s (read nonblock interrupted count offset) =
    left s (driver_read nonblock interrupted copy count offset s)
serve copy s (write nonblock interrupted user count) =
    left s (driver_write nonblock interrupted copy user count s)

pub serve_all : (ℕ → ℕ) → Shared → List Request → Shared
serve_all copy s [] = s
serve_all copy s (r ∷ rs) = serve_all copy (serve copy s r) rs

driver_write-room :
    (user : ℕ → ℕ) (n : ℕ) (s : Shared)
    → 0 < s.writable
    → n ≤ s.writable
    → driver_write false false all_copied user n s
      ≡ some (
        record {
          available = s.available + n;
          writable = s.writable - n;
          memory = overlay s.memory n user;
        },
        ok n,
      )
unfolding driver_write
driver_write-room user n s pos h =
    let size : min s.writable n - all_copied (min s.writable n) ≡ n = omega arith in
    let room : (s.writable == 0) ≡ false = ground arith in rw (room, size)

driver_read-available :
    (count offset : ℕ) (s : Shared)
    → 0 < s.available
    → s.available ≤ count
    → driver_read false false all_copied count offset s
      ≡ some (
        read_add s.available (read_sub s.available s),
        record {
          bytes = slice s.memory s.available 0;
          offset = offset + s.available;
          status = ok s.available;
        },
      )
unfolding driver_read
driver_read-available count offset s pos h =
    let size : min s.available count - all_copied (min s.available count) ≡ s.available =
      omega arith in
    let filled : (s.available == 0) ≡ false = ground arith in rw (filled, size)

-- Bytes written one after another before a read: the second write starts at the front again, so the
-- bytes of the first are lost as far as the second reaches. Below, `u` writes `m` bytes into the
-- empty buffer and `v` then writes `n`, at least one; a read with room for all gets `m + n` bytes.
second_write_overwrites :
    (u v : ℕ → ℕ) (m n count : ℕ)
    → 0 < n
    → m + n ≤ max_buffer_size
    → m + n ≤ count
    → (s : Shared) × (driver_read false false all_copied count 0
          (serve_all all_copied loaded (write false false u m ∷ write false false v n ∷ []))
        ≡ some (
          s,
          record {
            bytes = slice (λ a. if ltb a n then v a else if ltb a m then u a else 0) (m + n) 0;
            offset = m + n;
            status = ok (m + n);
          },
        ))
unfolding serve serve_all
second_write_overwrites u v m n count pos fits room =
    let s₁ : Shared = record {
      available = 0 + m;
      writable = max_buffer_size - m;
      memory = overlay (λ _. 0) m u;
    } in
    let s₂ : Shared = record {
      available = 0 + m + n;
      writable = max_buffer_size - m - n;
      memory = overlay (overlay (λ _. 0) m u) n v;
    } in
    let written : serve_all all_copied loaded (write false false u m ∷ write false false v n ∷ [])
        ≡ s₂ =
      ap (λ t. left (left loaded t) (driver_write false false all_copied v n (left loaded t)))
        (driver_write-room u m loaded (omega arith) (omega arith))
      ∙ ap (left s₁) (driver_write-room v n s₁ (omega arith) (omega arith)) in
    (
      read_add (0 + m + n) (read_sub (0 + m + n) s₂),
      ap (driver_read false false all_copied count 0) written
          ∙ driver_read-available count 0 s₂ (omega arith) (omega arith)
          ∙ rw (zero-add, zero-add) refl,
    )
