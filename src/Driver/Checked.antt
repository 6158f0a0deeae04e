-- ===== src/Driver/Checked.antt =====
-- Loading and unloading as `Kernel Modules/hw4/modules/{hello,mynull,myzero}` and
-- `hw5/modules/hello_counted` write it: every answer of the kernel is tested. The four files hold
-- the same two routines, which differ in the name of the device.
use Prim.Native.String.{String}
use c_advanced_problems.Prelude.{List, [], ◌∷◌, if◌then◌else◌}
use c_advanced_problems.Driver.Kernel.{
  ok, err, eio, Kernel, Call, alloc_chrdev_region, unregister_chrdev_region, cdev_alloc, cdev_add,
  cdev_del, kobject_put, class_create, class_refused, class_destroy, device_create, device_destroy,
  Run, ◌▹◌,
}

-- The labels at the end of `ModInit`, each of which falls through to the next.
abbrev pub free_class : Run
free_class = class_destroy ▹ ([], err eio)

abbrev pub free_device_number : Run
free_device_number = unregister_chrdev_region 1 ▹ free_class

abbrev pub free_character_device : Run
free_character_device = kobject_put ▹ free_device_number

-- `ModInit`, for a device called `name`.
unfoldable pub checked_init : String → Kernel → Run
checked_init name k =
    if k.region
    then alloc_chrdev_region 1 name
      ▹ (if k.cdev
          then cdev_alloc
            ▹ (if k.add
                then cdev_add 1
                  ▹ (if k.class
                      then class_create name
                        ▹ (if k.device 0
                            then device_create 0 name ▹ ([], ok 0)
                            else free_device_number)
                      else class_refused ▹ free_class)
                else free_character_device)
          else free_device_number)
    else ([], err eio)

-- `ModExit`
unfoldable pub checked_exit : List Call
checked_exit = device_destroy 0 ∷ class_destroy ∷ cdev_del ∷ unregister_chrdev_region 1 ∷ []
