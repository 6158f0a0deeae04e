-- ===== src/Driver/Openclose/Handles.antt =====
-- The files that programs hold open on the openclose devices.
use c_advanced_problems.Prelude.{
  ℕ, zero, suc, ◌+◌, ◌-◌, ◌≤◌, ◌≡◌, List, [], ◌∷◌, arith, if◌then◌else◌, leb, min,
}
use c_advanced_problems.Driver.Kernel.{Status, ok, err, ebusy}
use c_advanced_problems.Driver.Openclose.{max_devices, driver_open, driver_close}

-- What programs ask for. A close is passed to the driver only where a file is open.
pub data Request : Type 0 where
  open_file close_file : Request

-- The driver's counter, and the files that are open.
pub record Files : Type 0 where
  pub count : ℕ
  pub handles : ℕ

abbrev pub opened : Files → ℕ × Status → Files
opened f (count, ok n) = record { count = count; handles = f.handles + 1 }
opened f (count, err e) = record f { count = count }

pub serve : Files → Request → Files
serve f open_file = opened f (driver_open f.count)
serve f close_file =
    if leb 1 f.handles
    then record { count = (driver_close f.count).0; handles = f.handles - 1 }
    else f

pub serve_all : Files → List Request → Files
serve_all f [] = f
serve_all f (r ∷ rs) = serve_all (serve f r) rs

abbrev pub loaded : Files
loaded = record { count = 0; handles = 0 }

-- The counter is the number of open files, which is never above the limit.
pub record IsCounted (f : Files) : Type 0 where
  pub exact : f.count ≡ f.handles
  pub bounded : f.handles ≤ max_devices

serve-IsCounted : (f : Files) (r : Request) → IsCounted f → IsCounted (serve f r)
unfolding serve driver_open driver_close
serve-IsCounted f open_file h = ground arith
serve-IsCounted f close_file h = ground arith

serve_all-IsCounted : (f : Files) (rs : List Request) → IsCounted f → IsCounted (serve_all f rs)
unfolding serve_all
serve_all-IsCounted f [] h = h
serve_all-IsCounted f (r ∷ rs) h = serve_all-IsCounted (serve f r) rs (serve-IsCounted f r h)

-- After any requests since the module was loaded, the counter is the number of open files and at
-- most 257, and the next open is refused with -EBUSY exactly where 257 files are open.
open_refused_at_limit :
    (rs : List Request)
    → IsCounted (serve_all loaded rs)
      × ((driver_open (serve_all loaded rs).count).1
          ≡ (if leb max_devices (serve_all loaded rs).handles then err ebusy else ok 0))
unfolding driver_open
open_refused_at_limit rs =
    let h = serve_all-IsCounted loaded rs (omega arith) in (h, ground (arith, h))

abbrev pub opens : ℕ → List Request
opens zero = []
opens (suc n) = open_file ∷ opens n

serve-open_file :
    (f : Files) → IsCounted f → (serve f open_file).handles ≡ min (f.handles + 1) max_devices
unfolding serve driver_open
serve-open_file f h = ground arith

serve_all-opens :
    (n : ℕ) (f : Files)
    → IsCounted f
    → (serve_all f (opens n)).handles ≡ min (f.handles + n) max_devices
unfolding serve_all
serve_all-opens zero f h = omega arith
serve_all-opens (suc n) f h = omega (
  arith,
  serve-open_file f h,
  serve_all-opens n (serve f open_file) (serve-IsCounted f open_file h),
)

-- What openclosetest checks: 257 opens or more leave 257 files open with every further open refused,
-- and after one close an open is granted again.
reopen_after_close :
    (n : ℕ)
    → max_devices ≤ n
    → ((serve_all loaded (opens n)).handles ≡ max_devices)
      × ((driver_open (serve_all loaded (opens n)).count).1 ≡ err ebusy)
      × ((driver_open (serve (serve_all loaded (opens n)) close_file).count).1 ≡ ok 0)
unfolding serve driver_open driver_close
reopen_after_close n h =
    let c = serve_all-IsCounted loaded (opens n) (omega arith) in
    let e = serve_all-opens n loaded (omega arith) in
    (omega (arith, e), ground (arith, c, e), ground (arith, c, e))
