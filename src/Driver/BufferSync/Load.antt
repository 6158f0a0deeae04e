-- ===== src/Driver/BufferSync/Load.antt =====
-- What loading and unloading mybuffer_sync leaves behind.
use c_advanced_problems.Prelude.{◌≡◌, false, ◌&&◌, ◌++◌, arith, if◌then◌else◌}
use c_advanced_problems.Driver.Kernel.{ok, err, eio, Kernel, empty, replay}
use c_advanced_problems.Driver.BufferSync.{template_init, template_exit}

-- Where loading returns 0, loading and then unloading gives back the device number, the cdev, the
-- class and the device, releases nothing that is not held, and leaves the buffer's block allocated.
template_init-template_exit :
    (k : Kernel)
    → (template_init k).1 ≡ ok 0
    → ((replay empty ((template_init k).0 ++ template_exit)).minors ≡ 0)
      × ((replay empty ((template_init k).0 ++ template_exit)).cdevs ≡ 0)
      × ((replay empty ((template_init k).0 ++ template_exit)).live ≡ false)
      × ((replay empty ((template_init k).0 ++ template_exit)).classes ≡ 0)
      × ((replay empty ((template_init k).0 ++ template_exit)).devices 0 ≡ false)
      × ((replay empty ((template_init k).0 ++ template_exit)).faults ≡ 0)
      × ((replay empty ((template_init k).0 ++ template_exit)).blocks ≡ 1)
unfolding template_init template_exit
template_init-template_exit k h = ground arith

-- Where the device number is refused, loading returns -EIO and the block stays allocated; where the
-- device number is granted and the cdev or its registration is refused, it returns -EIO with nothing
-- taken left behind; where the class is refused, it returns -EIO with the cdev still live.
template_init-refused :
    (k : Kernel)
    → (k.region && k.cdev && k.add && k.class) ≡ false
    → ((template_init k).1 ≡ err eio)
      × ((replay empty (template_init k).0).minors ≡ 0)
      × ((replay empty (template_init k).0).cdevs ≡ 0)
      × ((replay empty (template_init k).0).blocks ≡ (if k.region then 0 else 1))
      × ((replay empty (template_init k).0).live ≡ (k.region && k.cdev && k.add))
unfolding template_init
template_init-refused k h = ground arith
