-- ===== src/Driver/Mybuffer.antt =====
-- `Kernel Modules/hw4/modules/mybuffer/mybuffer.c`: a device that keeps what was written last.
-- The size that a program asks for is below 2 ^ 31 (the kernel caps it), so that the `int to_copy`
-- is not negative.
pub mod Data
pub mod Load
use c_advanced_problems.Prelude.{
  ℕ, zero, suc, ◌+◌, ◌-◌, ◌%◌, ◌^◌, Bool, List, [], ◌∷◌, if◌then◌else◌, ltb, min, Option, none,
  some, ◌==◌,
}
use c_advanced_problems.Driver.Kernel.{
  Status, ok, err, eio, efault, erestartsys, Kernel, Call, alloc_chrdev_region,
  unregister_chrdev_region, cdev_alloc, cdev_add, cdev_del, kobject_put, class_destroy,
  device_destroy, kmalloc, kfree, Run, ◌▹◌,
}
use c_advanced_problems.Driver.Lenient.{untested_class, untested_device}
use c_advanced_problems.Driver.User.{Reply, sub64}

abbrev pub max_buffer_size : ℕ
max_buffer_size = 512

-- `buffer->length`, which is taken to be kept although the block that `kmalloc(sizeof(buffer))` asks for
-- has the size of a pointer, and the kernel's memory from `buffer->buffer` on: the first 512 bytes are those
-- of the buffer.
pub record Buffer : Type 0 where
  pub length : ℕ
  pub memory : ℕ → ℕ

-- The `n` bytes of a memory from `from` on.
abbrev pub slice : (ℕ → ℕ) → (n from : ℕ) → List ℕ
slice memory zero from = []
slice memory (suc n) from = memory from ∷ slice memory n (from + 1)

-- `n` bytes of the memory `source` copied to the start of `memory`.
abbrev pub overlay : (ℕ → ℕ) → ℕ → (ℕ → ℕ) → ℕ → ℕ
overlay memory n source a = if ltb a n then source a else memory a

-- `driver_read` behind the wait. Where not all is copied, -EFAULT: the bytes that were copied are
-- not told to the program.
unfoldable pub read_filled : (copy : ℕ → ℕ) → (to_copy offset : ℕ) → Buffer → Reply
read_filled copy to_copy offset b =
    if ltb 0 (copy to_copy)
    then record { bytes = []; offset = offset; status = err efault }
    else record { bytes = slice b.memory to_copy 0; offset = offset + to_copy; status = ok to_copy }

-- `driver_read`. Where not `BUFFER_FILLED`, `wait_event_interruptible` waits for a write (`none`) unless a
-- signal interrupts it.
unfoldable pub driver_read :
    (interrupted : Bool) → (copy : ℕ → ℕ) → (count offset : ℕ) → Buffer → Option Reply
driver_read interrupted copy count offset b =
    if b.length == 0
    then if interrupted
      then some (record { bytes = []; offset = offset; status = err erestartsys })
      else none
    else some (read_filled copy (min (sub64 b.length offset) count % 2 ^ 32) offset b)

-- `driver_write` of `count` bytes from the memory `user`.
unfoldable pub driver_write :
    (copy : ℕ → ℕ) → (user : ℕ → ℕ) → (count : ℕ) → Buffer → Buffer × Status
driver_write copy user count b =
    let to_copy = min count max_buffer_size in
    let written = to_copy - copy to_copy in
    (record { length = written; memory = overlay b.memory written user }, ok written)

-- The labels at the end of `ModInit`.
abbrev pub free_buffer : Run
free_buffer = kfree ▹ kfree ▹ ([], ok 0)

abbrev pub free_device_number : Run
free_device_number = unregister_chrdev_region 1 ▹ free_buffer

abbrev pub free_character_device : Run
free_character_device = kobject_put ▹ free_device_number

-- `ModInit`, where `kmalloc` and `kcalloc` grant both blocks. (The tests of their answers are
-- `< 0` on a pointer, so that no refusal would be seen.)
unfoldable pub mod_init : Kernel → Run
mod_init k =
    kmalloc
    ▹ kmalloc
    ▹ (if k.region
        then alloc_chrdev_region 1 "mybuffer"
          ▹ (if k.cdev
              then cdev_alloc
                ▹ (if k.add
                    then cdev_add 1
                      ▹ untested_class k "mybuffer" (untested_device k 0 "mybuffer" ([], ok 0))
                    else free_character_device)
              else free_device_number)
        else ([], err eio))

-- `ModExit`
unfoldable pub mod_exit : List Call
mod_exit =
    kfree ∷ kfree ∷ device_destroy 0 ∷ class_destroy ∷ cdev_del ∷ unregister_chrdev_region 1 ∷ []
