-- ===== src/Driver/Openclose/Load.antt =====
-- What loading and unloading openclose leaves behind.
use c_advanced_problems.Prelude.{
  ℕ, zero, suc, ◌+◌, ◌≡◌, refl, true, false, ◌&&◌, List, [], ◌∷◌, ◌++◌, arith, if◌then◌else◌, leb,
  ltb, ◌∙◌,
}
use c_advanced_problems.Driver.Kernel.{
  Kernel, Call, Run, Ledger, empty, effect, replay, class_ready, device_create, ◌▹◌, class_destroy,
  cdev_del, unregister_chrdev_region,
}
use c_advanced_problems.Driver.Lenient.{untested_device}
use c_advanced_problems.Prelude.Tally.{put}
use Prim.Native.String.{String}
use c_advanced_problems.Driver.Openclose.{
  max_devices, create_devices, destroy_devices, mod_init, mod_exit,
}

-- Two ledgers that differ at most in the devices.
pub record SameButDevices (g h : Ledger) : Type 0 where
  pub minors : g.minors ≡ h.minors
  pub cdevs : g.cdevs ≡ h.cdevs
  pub live : g.live ≡ h.live
  pub class_pointer : g.class_pointer ≡ h.class_pointer
  pub classes : g.classes ≡ h.classes
  pub blocks : g.blocks ≡ h.blocks
  pub faults : g.faults ≡ h.faults

replay-append : (cs ds : List Call) (h : Ledger) → replay h (cs ++ ds) ≡ replay (replay h cs) ds
replay-append [] ds h = refl
replay-append (c ∷ cs) ds h = replay-append cs ds (effect h c)

module _ (k : Kernel) where
  -- The ledger after the kernel was asked for device `i`.
  abbrev asked : ℕ → Ledger → Ledger
  asked i h = record h {
    devices = λ j. if k.class && k.device i then put h.devices i true j else h.devices j;
  }

  replay-untested_device :
      (i : ℕ) (name : String) (r : Run) (h : Ledger)
      → replay h (untested_device k i name r).0 ≡ replay (asked i h) r.0
  replay-untested_device i name r h =
      elim (k.class && k.device i)
        as (λ b.
          replay h (if b then device_create i name ▹ r else r).0
          ≡ replay (record h { devices = λ j. if b then put h.devices i true j else h.devices j })
              r.0) [ true ↦ refl | false ↦ refl ]

  -- The loop creates the devices that the kernel grants, from `i` on, and changes nothing else.
  create_devices_lem :
      (rounds i : ℕ) (h : Ledger)
      → SameButDevices (replay h (create_devices k rounds i).0) h
        × ((j : ℕ)
            → (replay h (create_devices k rounds i).0).devices j ≡ (
                if leb i j && ltb j (i + rounds) && (k.class && k.device j)
                then true
                else h.devices j))
  unfolding create_devices
  create_devices_lem zero i h = (ground arith, λ j. ground arith)
  create_devices_lem (suc rounds) i h =
      let (same, made) = create_devices_lem rounds (i + 1) (asked i h) in
      rw (replay-untested_device i "openclose%d" (create_devices k rounds (i + 1)) h)
        (ground (arith, same), λ j. ground (arith, made j))

-- The loop destroys the devices from `i` on, and changes nothing else.
destroy_devices_lem :
    (rounds i : ℕ) (h : Ledger)
    → h.class_pointer ≡ class_ready
    → SameButDevices (replay h (destroy_devices rounds i)) h
      × ((j : ℕ)
          → (replay h (destroy_devices rounds i)).devices j
            ≡ (if leb i j && ltb j (i + rounds) then false else h.devices j))
unfolding destroy_devices
destroy_devices_lem zero i h e = (ground arith, λ j. ground arith)
destroy_devices_lem (suc rounds) i h e =
    let h' = record h { devices = put h.devices i false } in
    let (same, made) = destroy_devices_lem rounds (i + 1) h' e in
    rw e (ground (arith, same), λ j. ground (arith, made j))

-- The ledger once the cdev is registered and the class created.
abbrev registered : Ledger
registered = record empty {
  minors = 257;
  cdevs = 1;
  live = true;
  class_pointer = class_ready;
  classes = 1;
}

module _ (k : Kernel) (granted : (k.region && k.cdev && k.add && k.class) ≡ true) where
  mod_init-registered :
      replay empty (mod_init k).0 ≡ replay registered (create_devices k max_devices 0).0
  unfolding mod_init
  mod_init-registered =
      let r : k.region ≡ true = ground arith in
      let c : k.cdev ≡ true = ground arith in
      let a : k.add ≡ true = ground arith in
      let g : k.class ≡ true = ground arith in simp (r, c, a, g) refl

  -- Where the cdev is registered and the class granted, loading creates the devices below 257 that the
  -- kernel grants; loading and then unloading leaves no device, class or cdev, but all 257 minor numbers
  -- stay allocated: the one call that releases what is not held is that for a region of one number.
  pub mod_exit-create_devices :
      ((j : ℕ) → (replay empty (mod_init k).0).devices j ≡ (ltb j max_devices && k.device j))
      × ((j : ℕ) → (replay empty ((mod_init k).0 ++ mod_exit)).devices j ≡ false)
      × ((replay empty ((mod_init k).0 ++ mod_exit)).minors ≡ 257)
      × ((replay empty ((mod_init k).0 ++ mod_exit)).cdevs ≡ 0)
      × ((replay empty ((mod_init k).0 ++ mod_exit)).live ≡ false)
      × ((replay empty ((mod_init k).0 ++ mod_exit)).classes ≡ 0)
      × ((replay empty ((mod_init k).0 ++ mod_exit)).faults ≡ 1)
  unfolding mod_exit
  mod_exit-create_devices =
      let g : k.class ≡ true = ground arith in
      let h = replay registered (create_devices k max_devices 0).0 in
      let (same, made) = create_devices_lem k max_devices 0 registered in
      let (same', gone) = destroy_devices_lem max_devices 0 h same.class_pointer in
      let ready : (replay h (destroy_devices max_devices 0)).class_pointer ≡ class_ready =
        same'.class_pointer ∙ same.class_pointer in
      rw (replay-append (mod_init k).0 mod_exit empty, mod_init-registered)
        (rw
          (
            replay-append (destroy_devices max_devices 0)
                (class_destroy ∷ cdev_del ∷ unregister_chrdev_region 1 ∷ []) h,
            ready,
          )
          (
            λ j. ground (arith, made j, g),
            λ j. ground (arith, made j, gone j),
            ground (arith, same, same'),
            ground (arith, same, same'),
            refl,
            ground (arith, same, same'),
            ground (arith, same, same'),
          ))
