-- ===== src/Driver/Lenient.antt =====
-- Loading and unloading as `Kernel Modules/hw4/modules/{simple_chardev,hello_kworld}` and
-- `hw5/modules/simple_chardev` write it: `class_create` and `device_create` are not tested, and
-- behind the labels the routine returns 0.
use Prim.Native.String.{String}
use c_advanced_problems.Prelude.{ℕ, ◌&&◌, List, [], ◌∷◌, if◌then◌else◌}
use c_advanced_problems.Driver.Kernel.{
  ok, err, eio, Kernel, Call, alloc_chrdev_region, unregister_chrdev_region, cdev_alloc, cdev_add,
  cdev_del, kobject_put, class_create, class_refused, class_destroy, device_create, device_destroy,
  Run, ◌▹◌,
}

-- The labels at the end of `ModInit`.
abbrev pub free_device_number : Run
free_device_number = unregister_chrdev_region 1 ▹ ([], ok 0)

abbrev pub free_character_device : Run
free_character_device = kobject_put ▹ free_device_number

-- The call of `class_create`, whose answer is not tested.
abbrev pub untested_class : Kernel → String → Run → Run
untested_class k name rest = if k.class then class_create name ▹ rest else class_refused ▹ rest

-- The call of `device_create` for one minor number, whose answer is not tested: it
-- refuses an error pointer as its class.
abbrev pub untested_device : Kernel → ℕ → String → Run → Run
untested_device k i name rest = if k.class && k.device i then device_create i name ▹ rest else rest

-- `ModInit`, for a device called `name`. `started` is what it runs once the device is registered:
-- nothing here, the creation of threads in `Driver.Threads`.
unfoldable pub lenient_init : String → Kernel → (started : Run) → Run
lenient_init name k started =
    if k.region
    then alloc_chrdev_region 1 name
      ▹ (if k.cdev
          then cdev_alloc
            ▹ (if k.add
                then cdev_add 1 ▹ untested_class k name (untested_device k 0 name started)
                else free_character_device)
          else free_device_number)
    else ([], err eio)

-- `ModExit`
unfoldable pub lenient_exit : List Call
lenient_exit = device_destroy 0 ∷ class_destroy ∷ cdev_del ∷ unregister_chrdev_region 1 ∷ []
