-- ===== src/Driver/Mybuffer/Data.antt =====
-- What a write leaves in the buffer, and what reads hand over.
use c_advanced_problems.Prelude.{
  ℕ, zero, suc, ◌+◌, ◌-◌, ◌%◌, ◌^◌, ◌≤◌, ◌<◌, ◌≡◌, refl, ap, ap₂, false, ◌∷◌, arith, if◌then◌else◌,
  ltb, min, none, some, ◌==◌,
}
use native.Mathlib.Nat.{zero-add}
use c_advanced_problems.Driver.Kernel.{ok}
use c_advanced_problems.Driver.User.{sub64, all_copied}
use c_advanced_problems.Driver.Mybuffer.{
  Buffer, max_buffer_size, slice, overlay, read_filled, driver_read, driver_write,
}

-- What a slice below `n` reads is the overlaid source.
slice-overlay :
    (m n from : ℕ) (memory source : ℕ → ℕ)
    → from + m ≤ n
    → slice (overlay memory n source) m from ≡ slice source m from
slice-overlay zero n from memory source h = refl
slice-overlay (suc m) n from memory source h =
    ap₂ ◌∷◌ (ground arith) (slice-overlay m n (from + 1) memory source (omega arith))

-- A write of at least one and up to 512 bytes returns their number and, for each program that then reads
-- from the start of the file with a buffer of `room` bytes, a read does not wait, returns the first
-- `room` of them (all, if there are no more) and moves the file position behind them.
pub driver_read-driver_write :
    (user : ℕ → ℕ) (count room : ℕ) (b : Buffer)
    → 0 < count
    → count ≤ max_buffer_size
    → room < 2 ^ 31
    → ((driver_write all_copied user count b).1 ≡ ok count)
      × (driver_read false all_copied room 0 (driver_write all_copied user count b).0
          ≡ some (record {
            bytes = slice user (min count room) 0;
            offset = min count room;
            status = ok (min count room);
          }))
unfolding driver_read read_filled driver_write
driver_read-driver_write user count room b filled small h =
    let kept : min count max_buffer_size - all_copied (min count max_buffer_size) ≡ count =
      omega arith in
    let size : min (sub64 count 0) room % 2 ^ 32 ≡ min count room = omega arith in
    let full : (count == 0) ≡ false = ground arith in
    rw kept (
      refl,
      rw (full, size, zero-add)
          (ap
            (λ t.
              some (record { bytes = t; offset = min count room; status = ok (min count room) }))
            (slice-overlay (min count room) count 0 b.memory user (omega arith))),
    )

-- Whatever the kernel copies, a write leaves a length of at most 512, and changes only the bytes
-- that it counts.
driver_write_bounded :
    (copy : ℕ → ℕ) (user : ℕ → ℕ) (count : ℕ) (b : Buffer)
    → ((driver_write copy user count b).0.length ≤ max_buffer_size)
      × ((a : ℕ)
          → (driver_write copy user count b).0.memory a
            ≡ (if ltb a (driver_write copy user count b).0.length then user a else b.memory a))
unfolding driver_write
driver_write_bounded copy user count b = (omega arith, λ a. refl)

-- A read of a buffer that is not empty, by a program whose file position lies behind the buffer's length,
-- as it does once another program has written less, gets as many bytes as it asked for: beyond 512 they
-- are not those of the buffer.
pub driver_read-overrun :
    (count offset : ℕ) (b : Buffer)
    → 0 < b.length
    → b.length < offset
    → b.length ≤ max_buffer_size
    → offset < 2 ^ 63
    → count < 2 ^ 31
    → driver_read false all_copied count offset b
      ≡ some (record { bytes = slice b.memory count 0; offset = offset + count; status = ok count })
unfolding driver_read read_filled
driver_read-overrun count offset b filled h l o c =
    let size : min (sub64 b.length offset) count % 2 ^ 32 ≡ count = omega arith in
    let full : (b.length == 0) ≡ false = ground arith in rw (full, size) refl

-- A read of an empty buffer waits, unless it is interrupted.
driver_read_waits :
    (copy : ℕ → ℕ) (count offset : ℕ) (b : Buffer)
    → b.length ≡ 0
    → driver_read false copy count offset b ≡ none
unfolding driver_read
driver_read_waits copy count offset b h = rw h refl
