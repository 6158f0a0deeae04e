-- ===== src/Driver/Kernel.antt =====
-- The kernel services that the modules call on loading and unloading. They are no code of the
-- repository: `Kernel` holds what they answer, and is an argument of the code. `Call` records the
-- calls that take effect, in order. `replay` is the documented effect of a call on what is held.
use Prim.Native.String.{String}
use c_advanced_problems.Prelude.{
  ℕ, ◌+◌, ◌-◌, Bool, true, false, List, [], ◌∷◌, if◌then◌else◌, ◌==◌, ◌≡◌, Option, none, some,
}
use c_advanced_problems.Prelude.Tally.{put}

-- A negative return value, by its name in errno.h.
pub data Errno : Type 0 where
  eio ebusy efault eagain erestartsys : Errno

-- What a handler returns: a count (0 on plain success), or a negated `Errno`.
pub data Status : Type 0 where
  ok : ℕ → Status
  err : Errno → Status

-- What `kthread_create` hands back: a task, or an error in the form of a pointer that is not NULL.
pub data Task : Type 0 where
  task null err_ptr : Task

-- Each answer is `true` where the service grants what is asked of it.
pub record Kernel : Type 0 where
  pub region : Bool  -- alloc_chrdev_region
  pub cdev : Bool  -- cdev_alloc
  pub add : Bool  -- cdev_add
  pub class : Bool  -- class_create
  pub device : ℕ → Bool  -- device_create, by minor number
  pub thread : ℕ → Task  -- kthread_create, in the order of the calls

pub data Call : Type 0 where
  alloc_chrdev_region : ℕ → String → Call
  unregister_chrdev_region : ℕ → Call
  cdev_alloc : Call
  cdev_add : ℕ → Call
  cdev_del : Call
  kobject_put : Call
  class_create : String → Call
  class_refused : Call  -- class_create, where it answers an error pointer
  class_destroy : Call
  device_create : ℕ → String → Call
  device_destroy : ℕ → Call
  kmalloc : Call
  kfree : Call
  kthread_create : ℕ → String → Call
  wake_up_process : ℕ → Call
  kill_pid : ℕ → Call
  wait_for_completion : Call

-- What a loading or unloading routine returns, and the calls that it made.
abbrev pub Run : Type 0
Run = List Call × Status

-- A call, and what runs after it.
infixr 3 ◌▹◌
abbrev pub ◌▹◌ : Call → Run → Run
c ▹ (cs, s) = (c ∷ cs, s)

-- The pointer that a module keeps to its class: NULL as long as it is not set, an error pointer, that of a
-- class, or that of a class which has been destroyed.
pub data ClassPointer : Type 0 where
  no_class class_error class_ready class_freed : ClassPointer

-- What is held: minor numbers, references to the cdev, whether it is live, classes, devices, blocks, and
-- the threads that were created. `faults` counts the releases of what is not held and the uses of a class
-- or a thread that is not there, of which the first one may already bring the kernel down.
pub record Ledger : Type 0 where
  pub minors : ℕ
  pub cdevs : ℕ
  pub live : Bool
  pub class_pointer : ClassPointer
  pub classes : ℕ
  pub devices : ℕ → Bool
  pub blocks : ℕ
  pub threads : ℕ → Bool
  pub faults : ℕ

abbrev pub empty : Ledger
empty = record {
  minors = 0;
  cdevs = 0;
  live = false;
  class_pointer = no_class;
  classes = 0;
  devices = λ _. false;
  blocks = 0;
  threads = λ _. false;
  faults = 0;
}

-- 1 where nothing is held.
abbrev pub missing : ℕ → ℕ
missing held = if held == 0 then 1 else 0

-- `class_destroy` ignores NULL and error pointers.
abbrev pub destroy_class : ClassPointer → Ledger → Ledger
destroy_class no_class h = h
destroy_class class_error h = h
destroy_class class_ready h = record h { class_pointer = class_freed; classes = h.classes - 1 }
destroy_class class_freed h = record h { faults = h.faults + 1 }

-- `device_destroy` finds no device in the class NULL, and ignores a device that is not there.
abbrev pub destroy_device : ClassPointer → ℕ → Ledger → Ledger
destroy_device no_class i h = h
destroy_device class_error i h = record h { faults = h.faults + 1 }
destroy_device class_ready i h = record h { devices = put h.devices i false }
destroy_device class_freed i h = record h { faults = h.faults + 1 }

abbrev pub use_thread : ℕ → Ledger → Ledger
use_thread i h = record h { faults = h.faults + (if h.threads i then 0 else 1) }

-- `unregister_chrdev_region` releases a region of exactly that many numbers. `cdev_del` and
-- `kobject_put` without a cdev are given NULL, or a cdev that is freed. `wait_for_completion` changes
-- nothing that is held; whether it ends is no matter of the ledger.
abbrev pub effect : Ledger → Call → Ledger
effect h (alloc_chrdev_region n name) = record h { minors = h.minors + n }
effect h (unregister_chrdev_region n) = record h {
  minors = if h.minors == n then 0 else h.minors;
  faults = h.faults + (if h.minors == n then 0 else 1);
}
effect h cdev_alloc = record h { cdevs = h.cdevs + 1 }
effect h (cdev_add n) = record h { live = true }
effect h cdev_del = record h {
  cdevs = h.cdevs - 1;
  live = false;
  faults = h.faults + missing h.cdevs;
}
effect h kobject_put = record h { cdevs = h.cdevs - 1; faults = h.faults + missing h.cdevs }
effect h (class_create name) = record h { class_pointer = class_ready; classes = h.classes + 1 }
effect h class_refused = record h { class_pointer = class_error }
effect h class_destroy = destroy_class h.class_pointer h
effect h (device_create i name) = record h { devices = put h.devices i true }
effect h (device_destroy i) = destroy_device h.class_pointer i h
effect h kmalloc = record h { blocks = h.blocks + 1 }
effect h kfree = record h { blocks = h.blocks - 1; faults = h.faults + missing h.blocks }
effect h (kthread_create i name) = record h { threads = put h.threads i true }
effect h (wake_up_process i) = use_thread i h
effect h (kill_pid i) = use_thread i h
effect h wait_for_completion = h

abbrev pub replay : Ledger → List Call → Ledger
replay h [] = h
replay h (c ∷ cs) = replay (effect h c) cs

-- The first call that releases what is not held or uses what is not there.
abbrev pub first_fault : Ledger → List Call → Option Call
first_fault h [] = none
first_fault h (c ∷ cs) =
    let rest = first_fault (effect h c) cs in
    if (effect h c).faults == h.faults then rest else some c

-- Nothing is held, and nothing was released or used that was not there.
pub record IsClean (h : Ledger) : Type 0 where
  pub minors : h.minors ≡ 0
  pub cdevs : h.cdevs ≡ 0
  pub live : h.live ≡ false
  pub classes : h.classes ≡ 0
  pub devices : (i : ℕ) → h.devices i ≡ false
  pub blocks : h.blocks ≡ 0
  pub faults : h.faults ≡ 0
