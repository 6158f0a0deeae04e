-- ===== src/Driver/Mybuffer/Load.antt =====
-- What loading and unloading mybuffer leaves behind.
use c_advanced_problems.Prelude.{◌≡◌, true, false, ◌&&◌, ◌++◌, arith}
use c_advanced_problems.Driver.Kernel.{ok, err, eio, Kernel, empty, replay, IsClean}
use c_advanced_problems.Driver.Mybuffer.{mod_init, mod_exit}

-- Where the cdev is registered and the class granted, loading and then unloading leaves nothing held and releases nothing
-- that is not held.
mod_exit-mod_init :
    (k : Kernel)
    → (k.region && k.cdev && k.add && k.class) ≡ true
    → IsClean (replay empty ((mod_init k).0 ++ mod_exit))
unfolding mod_init mod_exit
mod_exit-mod_init k h = ground arith

-- Where the device number is refused, loading returns -EIO and both blocks stay allocated.
mod_init-leaks :
    (k : Kernel)
    → k.region ≡ false
    → ((mod_init k).1 ≡ err eio) × ((replay empty (mod_init k).0).blocks ≡ 2)
unfolding mod_init
mod_init-leaks k h = ground arith

-- Where the cdev or its registration is refused, loading gives back all that it took and returns 0;
-- unloading then frees both blocks again, and releases a cdev and a device number that are not held.
mod_init-refused :
    (k : Kernel)
    → k.region ≡ true
    → (k.cdev && k.add) ≡ false
    → ((mod_init k).1 ≡ ok 0)
      × IsClean (replay empty (mod_init k).0)
      × ((replay empty ((mod_init k).0 ++ mod_exit)).faults ≡ 4)
unfolding mod_init mod_exit
mod_init-refused k r h = ground arith
