-- ===== src/InstallerInit/Boot.antt =====
-- installer/gotools/internal/installerinit/installerinit.go: Run with what it calls, and Main. The loop of
-- Run goes round as often as `passes` says; `none` in place of an end stands for a loop that goes on.
use dc_1_pmos.Base.{
  ℕ, zero, suc, ◌%◌, Bool, true, false, ◌||◌, List, [], ◌∷◌, Option, none, some, if◌then◌else◌,
  Bytes, codes, bytes_equal, length, ◌==◌,
}
use dc_1_pmos.Std.Strings.{trim_space}
use dc_1_pmos.InstallerInit.Ops.{
  GadgetError, GateError, no_surface, Message, entered, base_mounted, no_status, no_second_stage,
  spawn_failed, acquired, diagnosed, gadget_retry, no_display, at_tick, said, painted,
  serving_dialogs, reaped, slept, make_dir, mount, write_file, create_file, exists, grab_tty,
  open_kmsg, display, try_lock, blit, spawn, Machine, Run, ◌>>=◌, ◌>>◌, Done, return, note, call,
  read,
}
use dc_1_pmos.InstallerInit.Gate.{open_gate}
use dc_1_pmos.InstallerInit.Gadget.{gadget}
use dc_1_pmos.InstallerInit.Status.{default_status, status_lines, progress_pct}

abbrev pub status_file : Bytes
status_file = codes "/tmp/installer-status"

abbrev pub backlight : Bytes
backlight = codes "/sys/class/backlight/lcd-backlight/brightness"

abbrev pub rc_argv : List Bytes
rc_argv = codes "/bin/busybox" ∷ codes "sh" ∷ codes "/etc/rc.sh" ∷ []

abbrev say : Message → Run Done
say m = note (said m)

module _ (m : Machine) where
  unfoldable pub mount_all : Run Bool
  mount_all =
      call m (make_dir (codes "/proc"))
      >> call m (make_dir (codes "/sys"))
      >> call m (make_dir (codes "/dev"))
      >> call m (make_dir (codes "/tmp"))
      >> call m (mount (codes "proc") (codes "/proc") (codes "proc") [])
      >> call m (mount (codes "sysfs") (codes "/sys") (codes "sysfs") [])
      >> call m (mount (codes "devtmpfs") (codes "/dev") (codes "devtmpfs") (codes "mode=0755"))
      >> call m (make_dir (codes "/sys/kernel/config"))
      >> call m (mount (codes "configfs") (codes "/sys/kernel/config") (codes "configfs") [])

  unfoldable pub report_gadget : Option GadgetError → Run Done
  report_gadget none = return tt
  report_gadget (some e) = say (gadget_retry e)

  unfoldable pub report_status : Bool → Run Done
  report_status true = return tt
  report_status false = say no_status

  unfoldable pub report_spawn : Bool → Run Done
  report_spawn true = return tt
  report_spawn false = say spawn_failed

  unfoldable pub if_busybox : Bool → Run Done
  if_busybox true = call m (spawn rc_argv) >>= report_spawn
  if_busybox false = say no_second_stage

  unfoldable pub if_script : Bool → Run Done
  if_script true = call m (exists (codes "/bin/busybox")) >>= if_busybox
  if_script false = say no_second_stage

  unfoldable pub start_second_stage : Run Done
  start_second_stage = call m (exists (codes "/etc/rc.sh")) >>= if_script

  unfoldable pub lit : Bool → Run (Option GateError)
  lit true = call m (write_file backlight (codes "10\n")) >> return none
  lit false = return (some no_surface)

  unfoldable pub if_open : Option GateError → Run (Option GateError)
  if_open (some e) = return (some e)
  if_open none = call m display >>= lit

  unfoldable pub acquire_display : Run (Option GateError)
  acquire_display = open_gate m >>= if_open

  unfoldable pub status_of : Option Bytes → Bytes
  status_of none = default_status
  status_of (some s) = if length (trim_space s) == 0 then default_status else s

  -- the painting of one round, if the lock was taken
  unfoldable pub paint_locked : Bytes → ℕ → Bool → Run Done
  paint_locked status tick false = return tt
  paint_locked status tick true =
      note (painted (status_lines status) tick (progress_pct status))
      >> call m blit
      >> (if tick == 0 then say diagnosed else return tt)

  unfoldable pub paint : Bool → Bytes → ℕ → Run Done
  paint false status tick = return tt
  paint true status tick = call m try_lock >>= paint_locked status tick

  unfoldable pub one_round : Bool → ℕ → Option Bytes → Run Done
  one_round surface tick file =
      paint surface (status_of file) tick
      >> (if tick % 15 == 0 then say (at_tick tick) else return tt)
      >> note reaped
      >> note (slept 1)

  -- loop, from a tick on
  unfoldable pub loop : ℕ → Bool → ℕ → Run Done
  loop zero surface tick = return tt
  loop (suc passes) surface tick =
      (read m status_file >>= one_round surface tick) >> loop passes surface (suc tick)

  unfoldable pub with_display : ℕ → Option GateError → Run Done
  with_display passes (some e) = say (no_display e) >> loop passes false 0
  with_display passes none = say acquired >> note serving_dialogs >> loop passes true 0

  -- Run up to the second stage
  unfoldable pub prepare : Run Done
  prepare =
      say entered
      >> mount_all
      >> call m open_kmsg
      >> say base_mounted
      >> call m (grab_tty (codes "/dev/tty1"))
      >> (gadget m >>= report_gadget)
      >> (call m (create_file status_file (codes "STARTING\n")) >>= report_status)

  -- Run
  unfoldable pub run : ℕ → Run Done
  run passes = prepare >> start_second_stage >> (acquire_display >>= with_display passes)

-- the arguments of Main: whether the run is dry, `none` for an unknown one
unfoldable pub parse_args : Bool → List Bytes → Option Bool
parse_args dry [] = some dry
parse_args dry (a ∷ as') =
    let rest = parse_args true as' in
    if bytes_equal a (codes "-n") || bytes_equal a (codes "--dry-run") then rest else none

-- Main: the exit code, or `none` where it goes on to Run
unfoldable pub entry : Option Bool → ℕ → Option ℕ
entry none pid = some 2
entry (some true) pid = some 0
entry (some false) pid = if pid == 1 then none else some 1

unfoldable pub main : List Bytes → ℕ → Option ℕ
main args pid = entry (parse_args false args) pid
