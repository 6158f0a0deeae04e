-- ===== src/Driver/BufferSync.antt =====
-- `Kernel Modules/hw5/modules/mybuffer_sync/mybuffer_sync.c`: a buffer of 32 bytes with two atomic
-- counters, a lock for readers and a lock for writers. A handler is split where another thread can
-- see the state between two of its atomic operations.
pub mod Data
pub mod Load
pub mod Threads
use c_advanced_problems.Prelude.{
  ℕ, ◌+◌, ◌-◌, Bool, Option, none, some, List, [], ◌∷◌, if◌then◌else◌, ◌==◌, min,
}
use c_advanced_problems.Driver.Kernel.{
  Status, ok, err, eio, eagain, erestartsys, Kernel, Call, alloc_chrdev_region,
  unregister_chrdev_region, cdev_alloc, cdev_add, cdev_del, kobject_put, class_create,
  class_refused, class_destroy, device_destroy, kmalloc, kfree, Run, ◌▹◌,
}
use c_advanced_problems.Driver.Lenient.{untested_device}
use c_advanced_problems.Driver.User.{Reply}
use c_advanced_problems.Driver.Mybuffer.{slice, overlay}

abbrev pub max_buffer_size : ℕ
max_buffer_size = 32

-- `bytes_available`, `bytes_that_can_be_written` and the memory from `kernelmem` on.
pub record Shared : Type 0 where
  pub available : ℕ
  pub writable : ℕ
  pub memory : ℕ → ℕ

-- The state that the module is loaded with.
abbrev pub loaded : Shared
loaded = record { available = 0; writable = max_buffer_size; memory = λ _. 0 }

-- In the read lock: how many bytes reach the program.
abbrev pub read_copy : (copy : ℕ → ℕ) → (count : ℕ) → Shared → ℕ
read_copy copy count s = let to_copy = min s.available count in to_copy - copy to_copy

-- The two atomic operations of a read.
abbrev pub read_sub : ℕ → Shared → Shared
read_sub n s = record s { available = s.available - n }

abbrev pub read_add : ℕ → Shared → Shared
read_add n s = record s { writable = s.writable + n }

-- In the write lock: how many bytes leave the program, and what they do to the buffer.
abbrev pub write_copy : (copy : ℕ → ℕ) → (count : ℕ) → Shared → ℕ
write_copy copy count s = let to_copy = min s.writable count in to_copy - copy to_copy

abbrev pub write_store : (user : ℕ → ℕ) → ℕ → Shared → Shared
write_store user n s = record s { memory = overlay s.memory n user }

-- The two atomic operations of a write.
abbrev pub write_sub : ℕ → Shared → Shared
write_sub n s = record s { writable = s.writable - n }

abbrev pub write_add : ℕ → Shared → Shared
write_add n s = record s { available = s.available + n }

-- `driver_read` from the read lock on, without another thread in between.
abbrev pub read_locked : (copy : ℕ → ℕ) → (count offset : ℕ) → Shared → Shared × Reply
read_locked copy count offset s =
    let n = read_copy copy count s in
    (
      read_add n (read_sub n s),
      record { bytes = slice s.memory n 0; offset = offset + n; status = ok n },
    )

-- `driver_read`. Where there is nothing to read, `wait_event_interruptible` waits for a write (`none`)
-- unless a signal interrupts it.
unfoldable pub driver_read :
    (nonblock interrupted : Bool)
    → (copy : ℕ → ℕ) → (count offset : ℕ) → Shared
    → Option (Shared × Reply)
driver_read nonblock interrupted copy count offset s =
    if s.available == 0
    then if nonblock
      then some (s, record { bytes = []; offset = offset; status = err eagain })
      else if interrupted
      then some (s, record { bytes = []; offset = offset; status = err erestartsys })
      else none
    else some (read_locked copy count offset s)

-- `driver_write` from the write lock on, without another thread in between.
abbrev pub write_locked : (copy : ℕ → ℕ) → (user : ℕ → ℕ) → (count : ℕ) → Shared → Shared × Status
write_locked copy user count s =
    let n = write_copy copy count s in (write_add n (write_sub n (write_store user n s)), ok n)

-- `driver_write` of `count` bytes from the memory `user`, which waits where there is no room. (It moves
-- the file position as a read does.)
unfoldable pub driver_write :
    (nonblock interrupted : Bool)
    → (copy : ℕ → ℕ) → (user : ℕ → ℕ) → (count : ℕ) → Shared
    → Option (Shared × Status)
driver_write nonblock interrupted copy user count s =
    if s.writable == 0
    then if nonblock
      then some (s, err eagain)
      else if interrupted
      then some (s, err erestartsys)
      else none
    else some (write_locked copy user count s)

-- The labels at the end of `template_init`.
abbrev pub free_buffer : Run
free_buffer = kfree ▹ ([], err eio)

abbrev pub free_device_number : Run
free_device_number = unregister_chrdev_region 1 ▹ free_buffer

abbrev pub free_cdev : Run
free_cdev = kobject_put ▹ free_device_number

-- `template_init`, where `kcalloc` grants the block.
unfoldable pub template_init : Kernel → Run
template_init k =
    kmalloc
    ▹ (if k.region
        then alloc_chrdev_region 1 "mybuffer_sync"
          ▹ (if k.cdev
              then cdev_alloc
                ▹ (if k.add
                    then cdev_add 1
                      ▹ (if k.class
                          then class_create "mybuffer_sync"
                            ▹ untested_device k 0 "mybuffer_sync" ([], ok 0)
                          else class_refused ▹ free_cdev)
                    else free_cdev)
              else free_device_number)
        else ([], err eio))

-- `template_exit`
pub template_exit : List Call
template_exit = device_destroy 0 ∷ class_destroy ∷ cdev_del ∷ unregister_chrdev_region 1 ∷ []
