-- ===== src/Driver/Openclose.antt =====
-- `Kernel Modules/hw4/modules/openclose/openclose.c`: at most 257 open files, on 257 devices.
pub mod Handles
pub mod Load
use c_advanced_problems.Prelude.{ℕ, zero, suc, ◌+◌, ◌-◌, List, [], ◌∷◌, ◌++◌, if◌then◌else◌, leb}
use c_advanced_problems.Driver.Kernel.{
  Status, ok, err, eio, ebusy, Kernel, Call, alloc_chrdev_region, unregister_chrdev_region,
  cdev_alloc, cdev_add, cdev_del, kobject_put, class_create, class_destroy, device_destroy, Run,
  ◌▹◌,
}
use c_advanced_problems.Driver.Lenient.{untested_class, untested_device}

abbrev pub max_devices : ℕ
max_devices = 257

-- `driver_open` and `driver_close`, on the static `count`. The kernel calls `driver_close` once for
-- each file that it opened, so that `count` is not 0 there.
unfoldable pub driver_open : ℕ → ℕ × Status
driver_open count = if leb max_devices count then (count, err ebusy) else (count + 1, ok 0)

unfoldable pub driver_close : ℕ → ℕ × Status
driver_close count = (count - 1, ok 0)

-- The labels at the end of `ModInit`.
abbrev pub free_device_number : Run
free_device_number = unregister_chrdev_region max_devices ▹ ([], ok 0)

abbrev pub free_character_device : Run
free_character_device = kobject_put ▹ free_device_number

-- The loop of `ModInit` over the devices, with `rounds` rounds left, from `i` on.
pub create_devices : Kernel → (rounds i : ℕ) → Run
create_devices k zero i = ([], ok 0)
create_devices k (suc rounds) i =
    untested_device k i "openclose%d" (create_devices k rounds (i + 1))

-- `ModInit`
unfoldable pub mod_init : Kernel → Run
mod_init k =
    if k.region
    then alloc_chrdev_region 257 "openclose"
      ▹ (if k.cdev
          then cdev_alloc
            ▹ (if k.add
                then cdev_add 257 ▹ untested_class k "openclose" (create_devices k max_devices 0)
                else free_character_device)
          else free_device_number)
    else ([], err eio)

-- The loop of `ModExit` over the devices.
pub destroy_devices : (rounds i : ℕ) → List Call
destroy_devices zero i = []
destroy_devices (suc rounds) i = device_destroy i ∷ destroy_devices rounds (i + 1)

-- `ModExit`
unfoldable pub mod_exit : List Call
mod_exit =
    destroy_devices max_devices 0 ++ (class_destroy ∷ cdev_del ∷ unregister_chrdev_region 1 ∷ [])
