-- ===== src/SystemInit/Tests.antt =====
-- A machine that boots, one whose switch_root fails, and a superblock: systeminit.go and decide.go on
-- concrete answers.
use dc_1_pmos.Base.{
  Bytes, replicate, word32, ◌++◌, ◌≡◌, ◌≢◌, ◌↔◌, refl, Bool, true, false, [], ◌∷◌, some,
  if◌then◌else◌, codes, bytes_equal, ok,
}
use dc_1_pmos.SystemInit.Decide.{
  probe_superblock, fs_type_of, until_nul, word16_at, word32_at, Candidate, root_fs_type,
  root_label, is_root, matches, choose_root, select_root, fsck_acceptable, gadget_steps,
}
use dc_1_pmos.SystemInit.Ops.{is_executable, no_busybox, made, Machine, ◌>>=◌, ◌>>◌}
use dc_1_pmos.SystemInit.Rescue.{
  Config, switched, running, root_mount, executable, report_helper, spawn_helper, run_step,
  run_steps, bind_udc, after_root_dir, gadget, rescue_loop, rescue,
}
use dc_1_pmos.SystemInit.Boot.{
  keep_waiting, wait_root, pick_root, decide_root, find_root, find_fsck, judge_fsck, wait_fsck,
  run_fsck, fsck, is_separate, judge_init, check_init, judge_mount, check_mount, after_fsck,
  mount_root,
}
use dc_1_pmos.SystemInit.Handoff.{
  make_dirs, prepare, move_all, roll_back, report_exec, exec_init, exec_if, give_back, hand_off,
  after_mount, after_find, after_busybox, boot,
}
use dc_1_pmos.SystemInit.Emits.{Emits, GuardedBy}
use dc_1_pmos.SystemInit.Quiet.{IsQuiet, rescue-IsQuiet}
use dc_1_pmos.SystemInit.ExecGuard.{IsGuarded}
use dc_1_pmos.SystemInit.Switch.{boot-IsGuarded}
use dc_1_pmos.SystemInit.Rollback.{IsHome, boot-IsHome}
use dc_1_pmos.SystemInit.RootChoice.{OnlyRoot, select_root-OnlyRoot}
use dc_1_pmos.SystemInit.Superblock.{IsLabel, IsExt, probe_superblock-IsExt}
use dc_1_pmos.SystemInit.Watchdog.{petter}
use dc_1_pmos.SystemInit.WatchdogFirst.{StartGuard, boot-GuardedBy}
use dc_1_pmos.SystemInit.Lease.{PetGuard, petter-GuardedBy}
use dc_1_pmos.SystemInit.Watchdog.{run_helper, helper_body, stream_kmsg, feed_tty, copy_kmsg}
use dc_1_pmos.SystemInit.Start.{
  Flags, Process, names, check_helper, check_tty, parse_args, self_path, init_allowed,
  helper_allowed, role_of, run_named, start, main,
}
use dc_1_pmos.SystemInit.Entitled.{IsEntitled, main-IsEntitled}

abbrev userdata : Candidate
userdata = record { device = codes "/dev/sdc63"; fs_type = root_fs_type; label = root_label }

abbrev stock : Candidate
stock = record { device = codes "/dev/sdc62"; fs_type = []; label = [] }

abbrev machine : Bool → Machine
machine executes = record {
  mkdir = λ log path. made;
  mount = λ log source target fs_type options. true;
  unmount = λ log target. true;
  move_mount = λ log old new. true;
  symlink = λ log link target. true;
  write_sys = λ log path value. true;
  touch = λ log path. true;
  open_read = λ log path. true;
  open_write = λ log path. true;
  stat = λ log path.
      some (record { dev = if bytes_equal path root_mount then 2 else 1; mode = 493; mtime = 0 });
  spawn = λ log argv tty. some 7;
  wait = λ log pid block. some (7, some 0);
  exec = λ log path argv. executes;
  probe_roots = λ log. some (userdata ∷ []);
  arm_fastboot = λ log. true;
  pet = λ log. true;
  copy = λ log. true;
  now = λ log. some 0;
}

abbrev config : Config
config = record { once = false; self = codes "/bin/dc1tools" }

boots : (boot (machine true) config 0 []).0 ≡ switched
unfolding boot prepare make_dirs spawn_helper report_helper executable is_executable after_busybox
    find_root wait_root keep_waiting decide_root select_root matches is_root bytes_equal choose_root
    pick_root after_find mount_root fsck find_fsck run_fsck wait_fsck judge_fsck fsck_acceptable
    after_fsck check_mount judge_mount is_separate check_init judge_init after_mount hand_off
    move_all exec_if exec_init report_exec give_back ◌>>=◌ ◌>>◌
boots = refl

returns : (boot (machine false) config 0 []).0 ≡ running
unfolding boot prepare make_dirs spawn_helper report_helper executable is_executable after_busybox
    find_root wait_root keep_waiting decide_root select_root matches is_root bytes_equal choose_root
    pick_root after_find mount_root fsck find_fsck run_fsck wait_fsck judge_fsck fsck_acceptable
    after_fsck check_mount judge_mount is_separate check_init judge_init after_mount hand_off
    move_all exec_if exec_init report_exec give_back roll_back rescue gadget after_root_dir
    run_steps run_step gadget_steps bind_udc rescue_loop ◌>>=◌ ◌>>◌
returns = refl

not_switched : (boot (machine false) config 0 []).0 ≢ switched
not_switched h = cc (returns)

boot-IsGuarded_example : IsGuarded (boot (machine true) config 1 []).1
boot-IsGuarded_example = boot-IsGuarded (machine true) config 1

boot-IsHome_example : IsHome (boot (machine false) config 0 []).1
boot-IsHome_example = boot-IsHome (machine false) config 0 (λ log m. refl) not_switched

rescue-IsQuiet_example : Emits IsQuiet (rescue (machine true) config 2 no_busybox)
rescue-IsQuiet_example = rescue-IsQuiet (machine true) config 2 no_busybox

petter-GuardedBy_example : GuardedBy PetGuard (petter (machine true) config 3 []).1
petter-GuardedBy_example = petter-GuardedBy (machine true) config 3

select_root-OnlyRoot_example :
    (select_root (stock ∷ userdata ∷ []) ≡ ok (codes "/dev/sdc63"))
    ↔ OnlyRoot (stock ∷ userdata ∷ []) (codes "/dev/sdc63")
select_root-OnlyRoot_example = select_root-OnlyRoot (stock ∷ userdata ∷ []) (codes "/dev/sdc63")

boot-GuardedBy_example : GuardedBy (StartGuard config) (boot (machine true) config 1 []).1
boot-GuardedBy_example = boot-GuardedBy (machine true) config 1

abbrev superblock : Bytes
superblock =
    replicate 56 0
    ++ (83 ∷ 239 ∷ replicate 38 0
        ++ (64 ∷ replicate 23 0 ++ (codes "jagar-root" ++ replicate 894 0)))

superblock_found : probe_superblock superblock ≡ (root_fs_type, root_label)
unfolding probe_superblock fs_type_of until_nul word16_at word32_at word32
superblock_found = refl

probe_superblock-IsExt_example :
    IsLabel (probe_superblock superblock).1
    × ((probe_superblock superblock).0 ≡ root_fs_type → IsExt superblock)
probe_superblock-IsExt_example = probe_superblock-IsExt superblock

abbrev kmsg_process : Process
kmsg_process = record { pid = 77; ppid = 1; marker = codes "1"; exe = some (codes "/bin/dc1tools") }

abbrev kmsg_flags : Flags
kmsg_flags = record { helper = codes "kmsg"; tty = []; dry_run = false; once = true }

acts : (main (machine true) kmsg_process kmsg_flags 0 1 []).1 ≢ []
unfolding main parse_args check_helper check_tty names start init_allowed helper_allowed role_of
    run_named run_helper helper_body stream_kmsg feed_tty copy_kmsg bytes_equal self_path ◌>>=◌ ◌>>◌
acts h = cc (h)

main-IsEntitled_example :
    (kmsg_flags.dry_run ≡ false) × IsEntitled (machine true) kmsg_process kmsg_flags 0 1
main-IsEntitled_example = main-IsEntitled (machine true) kmsg_process kmsg_flags 0 1 acts
