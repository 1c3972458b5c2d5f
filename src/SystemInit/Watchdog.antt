-- ===== src/SystemInit/Watchdog.antt =====
-- The helpers of installer/gotools/internal/systeminit/systeminit.go: petter, streamKmsg, respawnShell
-- and runHelper. Their loops have no end on a device: `rounds` bounds how often they go round here.
use dc_1_pmos.Base.{
  ℕ, zero, suc, Bool, true, false, not, [], ◌∷◌, Option, none, some, if◌then◌else◌, Bytes, codes,
}
use dc_1_pmos.SystemInit.Decide.{lease_fresh}
use dc_1_pmos.SystemInit.Ops.{
  FileInfo, closed, lease_expired, plain_reset, pet_failed, no_watchdog, petting, Machine, Run,
  ◌>>=◌, ◌>>◌, return, Done, say, open_kmsg, sleep, stat, open_read, open_write, spawn, wait,
  arm_fastboot, now, pet, copy,
}
use dc_1_pmos.SystemInit.Rescue.{
  busybox_path, lease_path, deadman_path, Role, watchdog, kmsg, shell, Config, Ending, running,
  exited,
}

abbrev pub watchdog_path : Bytes
watchdog_path = codes "/dev/watchdog"

-- Close of an open file
abbrev pub close : Run Done
close log = (tt, closed true ∷ log)

unfoldable pub mtime_of : Option FileInfo → ℕ
mtime_of none = 0
mtime_of (some f) = f.mtime

unfoldable pub is_there : Option FileInfo → Bool
is_there none = false
is_there (some f) = true

module _ (o : Machine) where
  -- The loop that opens the watchdog, with so many tries left.
  unfoldable pub open_watchdog : ℕ → Run Bool
  open_watchdog zero = return false
  open_watchdog (suc tries) = do
    let later = open_watchdog tries
    r ← open_write o watchdog_path
    if r then return true else (sleep 1 >> later)

  unfoldable pub lease_holds : Run Bool
  lease_holds = do
    st ← stat o lease_path
    t ← now o
    return (lease_fresh (is_there st) (mtime_of st) t)

  -- whether the deadman is armed and its lease has run out
  unfoldable pub lease_ended : Option FileInfo → Run Bool
  lease_ended none = return false
  lease_ended (some f) = do holds ← lease_holds; return (not holds)

  unfoldable pub report_arm : Bool → Run Done
  report_arm true = return tt
  report_arm false = say plain_reset

  -- the loop that no longer pets
  unfoldable pub park : Config → ℕ → Run Ending
  park c zero = return running
  park c (suc rounds) = do
    let later = park c rounds
    sleep 3600
    if c.once then return (exited 0) else later

  unfoldable pub report_pet : Bool → Run Done
  report_pet true = return tt
  report_pet false = say pet_failed

  unfoldable pub pet_once : Config → Run Ending → Run Ending
  pet_once c later = do
    r ← pet o
    report_pet r
    if c.once then return (exited 0) else (sleep 10 >> later)

  unfoldable pub stop_petting : Config → ℕ → Run Ending
  stop_petting c rounds = do say lease_expired; r ← arm_fastboot o; report_arm r; park c rounds

  unfoldable pub pet_or_stop : Config → ℕ → Run Ending → Bool → Run Ending
  pet_or_stop c rounds later true = stop_petting c rounds
  pet_or_stop c rounds later false = pet_once c later

  unfoldable pub pet_loop : Config → ℕ → Run Ending
  pet_loop c zero = return running
  pet_loop c (suc rounds) = do
    let later = pet_loop c rounds
    deadman ← stat o deadman_path
    ended ← lease_ended deadman
    pet_or_stop c rounds later ended

  -- `defer w.Close()`, once the loop returns
  unfoldable pub after_loop : Ending → Run Ending
  after_loop running = return running
  after_loop ending = close >> return ending

  unfoldable pub with_watchdog : Config → ℕ → Bool → Run Ending
  with_watchdog c rounds false = say no_watchdog >> return (exited 0)
  with_watchdog c rounds true = do say petting; ending ← pet_loop c rounds; after_loop ending

  unfoldable pub petter : Config → ℕ → Run Ending
  petter c rounds = do r ← open_watchdog 10; with_watchdog c rounds r

  unfoldable pub copy_kmsg : Bool → Run Done
  copy_kmsg false = return tt
  copy_kmsg true = do _ ← copy o; close

  unfoldable pub feed_tty : Bool → Run Done
  feed_tty false = return tt
  feed_tty true = do k ← open_read o (codes "/dev/kmsg"); copy_kmsg k; close

  unfoldable pub stream_kmsg : Config → ℕ → Run Ending
  stream_kmsg c zero = return running
  stream_kmsg c (suc rounds) = do
    let later = stream_kmsg c rounds
    out ← open_write o (codes "/dev/ttyGS0")
    feed_tty out
    if c.once then return (exited 0) else (sleep 1 >> later)

  unfoldable pub wait_shell : Option ℕ → Run Done
  wait_shell none = return tt
  wait_shell (some pid) = do _ ← wait o (some pid) true; return tt

  unfoldable pub respawn_shell : Config → Bytes → ℕ → Run Ending
  respawn_shell c tty zero = return running
  respawn_shell c tty (suc rounds) = do
    let later = respawn_shell c tty rounds
    pid ← spawn o (busybox_path ∷ codes "sh" ∷ []) false tty
    wait_shell pid
    if c.once then return (exited 0) else (sleep 1 >> later)

  unfoldable pub helper_body : Config → ℕ → Bytes → Role → Run Ending
  helper_body c rounds tty watchdog = petter c rounds
  helper_body c rounds tty kmsg = stream_kmsg c rounds
  helper_body c rounds tty shell = respawn_shell c tty rounds

  unfoldable pub run_helper : Config → ℕ → Bytes → Role → Run Ending
  run_helper c rounds tty role = do open_kmsg; helper_body c rounds tty role
