-- ===== src/SystemInit/Rescue.antt =====
-- spawnHelper, gadget and rescue of installer/gotools/internal/systeminit/systeminit.go. The loop of rescue has no end on a device: `passes` bounds how
-- often it goes round here, and in each pass how many strays are reaped.
use dc_1_pmos.Base.{
  ℕ, zero, suc, Bool, true, false, List, [], ◌∷◌, ◌++◌, Option, none, some, if◌then◌else◌, Bytes,
  codes,
}
use dc_1_pmos.SystemInit.Decide.{
  GadgetStep, make_dir, write_value, make_link, gadget_steps, udc_candidates,
}
use dc_1_pmos.SystemInit.Ops.{
  FileInfo, is_executable, Failure, no_configfs, udc_failed, deadman_armed, udc_bound,
  helper_failed, rescue_shell, nothing_written, Made, failed, Machine, Run, ◌>>=◌, ◌>>◌, return,
  Done, say, sleep, mkdir, mount, symlink, write_sys, touch, spawn, wait,
}

abbrev pub busybox_path : Bytes
busybox_path = codes "/bin/busybox"

abbrev pub gadget_root : Bytes
gadget_root = codes "/sys/kernel/config/usb_gadget/g1"

abbrev pub root_mount : Bytes
root_mount = codes "/mnt/root"

abbrev pub kernel_mounts : List Bytes
kernel_mounts = codes "/dev" ∷ codes "/proc" ∷ codes "/sys" ∷ []

abbrev pub rescue_consoles : List Bytes
rescue_consoles = codes "/dev/tty1" ∷ codes "/dev/ttyS0" ∷ codes "/dev/console" ∷ []

abbrev pub lease_path : Bytes
lease_path = codes "/tmp/wd-lease"

abbrev pub deadman_path : Bytes
deadman_path = codes "/tmp/wd-deadman"

pub data Role : Type 0 where
  watchdog kmsg shell : Role

abbrev pub role_name : Role → Bytes
role_name watchdog = codes "watchdog"
role_name kmsg = codes "kmsg"
role_name shell = codes "shell"

pub record Config : Type 0 where
  pub once : Bool
  pub self : Bytes

-- How boot ends: another program runs, the code with `once`, or still in the loop of rescue.
pub data Ending : Type 0 where
  switched running : Ending
  exited : ℕ → Ending

unfoldable pub executable : Option FileInfo → Bool
executable none = false
executable (some f) = is_executable f

abbrev pub helper_argv : Config → Role → List Bytes
helper_argv c role = c.self ∷ codes "system-init" ∷ codes "-helper" ∷ role_name role ∷ []

abbrev pub role_argv : Config → Role → List Bytes
role_argv c shell = helper_argv c shell ++ (codes "-tty" ∷ codes "/dev/ttyGS1" ∷ [])
role_argv c role = helper_argv c role

-- whether a poll found no stray
unfoldable pub found_none : Option (ℕ × Option ℕ) → Bool
found_none none = true
found_none (some (zero, rc)) = true
found_none (some (suc pid, rc)) = false

module _ (o : Machine) where
  unfoldable pub report_helper : Role → Option ℕ → Run Done
  report_helper role none = say (helper_failed (role_name role))
  report_helper role (some pid) = return tt

  unfoldable pub spawn_helper : Config → Role → Run Done
  spawn_helper c role = do r ← spawn o (role_argv c role) true []; report_helper role r

  unfoldable pub run_step : GadgetStep → Run Done
  run_step (make_dir path) = do _ ← mkdir o path; return tt
  run_step (write_value path value) = do _ ← write_sys o path value; return tt
  run_step (make_link path target) = do _ ← symlink o path target; return tt

  unfoldable pub run_steps : List GadgetStep → Run Done
  run_steps [] = return tt
  run_steps (s ∷ rest) = do run_step s; run_steps rest

  unfoldable pub bind_udc : List Bytes → Run Done
  bind_udc [] = say udc_failed
  bind_udc (udc ∷ rest) = do
    let later = bind_udc rest
    bound ← write_sys o (gadget_root ++ codes "/UDC") udc
    if bound then say (udc_bound udc) else later

  unfoldable pub after_root_dir : Made → Run Done
  after_root_dir failed = say no_configfs
  after_root_dir _ = do run_steps (gadget_steps gadget_root); bind_udc udc_candidates

  unfoldable pub gadget : Run Done
  gadget = do r ← mkdir o gadget_root; after_root_dir r

  unfoldable pub start_shell : Bytes → Run (Option ℕ)
  start_shell tty = spawn o (busybox_path ∷ codes "sh" ∷ []) false tty

  unfoldable pub still_there : Bytes → Option ℕ → Option (ℕ × Option ℕ) → Run (Option ℕ)
  still_there tty kid (some (zero, _)) = return kid
  still_there tty kid _ = start_shell tty

  -- one console of a pass, with the shell that it has
  unfoldable pub offer_shell : Bytes → Option ℕ → Run (Option ℕ)
  offer_shell tty none = start_shell tty
  offer_shell tty (some pid) = do w ← wait o (some pid) false; still_there tty (some pid) w

  unfoldable pub offer_shells : List Bytes → List (Option ℕ) → Run (List (Option ℕ))
  offer_shells [] kids = return []
  offer_shells (tty ∷ ttys) [] = return []
  offer_shells (tty ∷ ttys) (kid ∷ kids) = do
    k ← offer_shell tty kid
    ks ← offer_shells ttys kids
    return (k ∷ ks)

  unfoldable pub reap : ℕ → Run Bool
  reap zero = return false
  reap (suc rounds) = do
    let later = reap rounds
    w ← wait o none false
    if found_none w then return true else later

  -- the end of a pass, and the ones after it
  unfoldable pub next_pass : Config → Run Ending → Bool → Run Ending
  next_pass c later false = return running
  next_pass c later true = if c.once then return (exited 1) else (sleep 2 >> later)

  unfoldable pub rescue_loop : Config → ℕ → ℕ → List (Option ℕ) → Run Ending
  rescue_loop c rounds zero kids = return running
  rescue_loop c rounds (suc passes) kids = do
    kids' ← offer_shells rescue_consoles kids
    reaped ← reap rounds
    let later = rescue_loop c rounds passes kids'
    next_pass c later reaped

  unfoldable pub rescue : Config → ℕ → Failure → Run Ending
  rescue c passes why = do
    say (rescue_shell why)
    say nothing_written
    _ ← touch o lease_path
    _ ← touch o deadman_path
    say deadman_armed
    _ ← mkdir o (codes "/sys/kernel/config")
    _ ← mount o (codes "configfs") (codes "/sys/kernel/config") (codes "configfs") []
    gadget
    spawn_helper c kmsg
    spawn_helper c shell
    rescue_loop c passes passes (none ∷ none ∷ none ∷ [])
