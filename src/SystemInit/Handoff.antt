-- ===== src/SystemInit/Handoff.antt =====
-- boot of installer/gotools/internal/systeminit/systeminit.go: up to the verified root, the move of the
-- kernel's file systems into it, and switch_root or the way back to rescue.
use dc_1_pmos.Base.{
  ℕ, zero, suc, Bool, true, false, List, [], ◌∷◌, ◌++◌, ◌==◌, if◌then◌else◌, Bytes, codes, length,
  get_or, ok, err,
}
use dc_1_pmos.SystemInit.Ops.{
  no_busybox, switch_failed, starting, mounted_base, switching, exec_failed, move_failed, Machine,
  Run, ◌>>=◌, ◌>>◌, return, Done, say, open_kmsg, mkdir, mount, move_mount, stat, exec,
}
use dc_1_pmos.SystemInit.Rescue.{
  busybox_path, root_mount, kernel_mounts, watchdog, Config, Ending, switched, executable,
  spawn_helper, rescue,
}
use dc_1_pmos.SystemInit.Boot.{Tried, find_root, mount_root}

abbrev pub base_dirs : List Bytes
base_dirs =
    codes "/proc" ∷ codes "/sys" ∷ codes "/dev" ∷ codes "/tmp" ∷ codes "/mnt" ∷ root_mount ∷ []

abbrev pub switch_argv : List Bytes
switch_argv = codes "switch_root" ∷ root_mount ∷ codes "/sbin/init" ∷ []

module _ (o : Machine) where
  unfoldable pub make_dirs : List Bytes → Run Done
  make_dirs [] = return tt
  make_dirs (d ∷ ds) = do _ ← mkdir o d; make_dirs ds

  unfoldable pub prepare : Run Done
  prepare = do
    say starting
    make_dirs base_dirs
    _ ← mount o (codes "proc") (codes "/proc") (codes "proc") []
    _ ← mount o (codes "sysfs") (codes "/sys") (codes "sysfs") []
    _ ← mount o (codes "devtmpfs") (codes "/dev") (codes "devtmpfs") (codes "mode=0755")
    open_kmsg
    say mounted_base

  -- how many were moved: the loop ends at the first that fails
  unfoldable pub move_all : List Bytes → ℕ → Run ℕ
  move_all [] count = return count
  move_all (m ∷ ms) count = do
    let later = move_all ms (suc count)
    r ← move_mount o m (root_mount ++ m)
    if r then later else (say (move_failed m) >> return count)

  unfoldable pub roll_back : ℕ → Run Done
  roll_back zero = return tt
  roll_back (suc count) = do
    let m = get_or kernel_mounts count []
    _ ← move_mount o (root_mount ++ m) m
    roll_back count

  unfoldable pub report_exec : Bool → Run Bool
  report_exec true = return true
  report_exec false = say exec_failed >> return false

  unfoldable pub exec_init : Run Bool
  exec_init = do r ← exec o busybox_path switch_argv; report_exec r

  unfoldable pub exec_if : ℕ → Run Bool
  exec_if count = if count == length kernel_mounts then exec_init else return false

  module _ (c : Config) (passes : ℕ) where
    unfoldable pub give_back : ℕ → Bool → Run Ending
    give_back count true = return switched
    give_back count false = do roll_back count; rescue o c passes switch_failed

    unfoldable pub hand_off : Bytes → Run Ending
    hand_off dev = do
      say (switching dev)
      count ← move_all kernel_mounts 0
      execed ← exec_if count
      give_back count execed

    unfoldable pub after_mount : Bytes → Tried Done → Run Ending
    after_mount dev (err why) = rescue o c passes why
    after_mount dev (ok u) = hand_off dev

    unfoldable pub after_find : Tried Bytes → Run Ending
    after_find (err why) = rescue o c passes why
    after_find (ok dev) = do r ← mount_root o dev; after_mount dev r

    unfoldable pub after_busybox : Bool → Run Ending
    after_busybox false = rescue o c passes no_busybox
    after_busybox true = do r ← find_root o; after_find r

    unfoldable pub boot : Run Ending
    boot = do
      prepare
      spawn_helper o c watchdog
      st ← stat o busybox_path
      after_busybox (executable st)
