-- ===== src/SystemInit/Boot.antt =====
-- The boot sequence of installer/gotools/internal/systeminit/systeminit.go: boot, findRoot, mountRoot
-- and fsck.
use dc_1_pmos.Base.{
  ℕ, zero, suc, ◌-◌, Bool, true, false, not, List, [], ◌∷◌, ◌++◌, Option, none, some, ◌==◌,
  if◌then◌else◌, Bytes, codes, Result, ok, err,
}
use dc_1_pmos.SystemInit.Decide.{
  Candidate, RootError, select_root, root_fs_type, root_wait_seconds, waiting_notice,
  fsck_acceptable, fsck_paths,
}
use dc_1_pmos.SystemInit.Ops.{
  FileInfo, Failure, fsck_errors, mount_failed, not_separate, no_init, never_found, bad_root,
  root_found, fsck_skipped, fsck_clean, fsck_failed_to_run, still_waiting, Machine, Run, ◌>>=◌,
  ◌>>◌, return, Done, say, sleep, mount, unmount, stat, spawn, wait, probe_roots,
}
use dc_1_pmos.SystemInit.Rescue.{root_mount, executable}

abbrev pub Tried : Type 0 → Type 0
Tried A = Result Failure A

-- the root file system and its init
abbrev pub init_path : Bytes
init_path = root_mount ++ codes "/sbin/init"

unfoldable pub is_separate : Option FileInfo → Option FileInfo → Bool
is_separate (some old) (some new) = not (old.dev == new.dev)
is_separate _ _ = false

module _ (o : Machine) where
  unfoldable pub say_waiting : ℕ → Run Done
  say_waiting second = if waiting_notice second then say (still_waiting second) else return tt

  unfoldable pub keep_waiting :
      ℕ → Run (Option (List Candidate)) → Option (List Candidate) → Run (Option (List Candidate))
  keep_waiting second later (some cands) = return (some cands)
  keep_waiting second later none = do say_waiting second; sleep 1; later

  -- The loop of findRoot with so many seconds left: second `root_wait_seconds - left`.
  unfoldable pub wait_root : ℕ → Run (Option (List Candidate))
  wait_root zero = probe_roots o
  wait_root (suc left) = do
    let later = wait_root left
    r ← probe_roots o
    keep_waiting (root_wait_seconds - suc left) later r

  unfoldable pub pick_root : Result RootError Bytes → Run (Tried Bytes)
  pick_root (err e) = return (err (bad_root e))
  pick_root (ok dev) = do say (root_found dev); return (ok dev)

  unfoldable pub decide_root : Option (List Candidate) → Run (Tried Bytes)
  decide_root none = return (err never_found)
  decide_root (some cands) = pick_root (select_root cands)

  unfoldable pub find_root : Run (Tried Bytes)
  find_root = do cands ← wait_root (root_wait_seconds - 1); decide_root cands

  unfoldable pub find_fsck : List Bytes → Run (Option Bytes)
  find_fsck [] = return none
  find_fsck (p ∷ ps) = do
    let later = find_fsck ps
    st ← stat o p
    if executable st then return (some p) else later

  unfoldable pub judge_fsck : Option (ℕ × Option ℕ) → Run (Tried Done)
  judge_fsck none = do say fsck_failed_to_run; return (ok tt)
  judge_fsck (some (pid, rc)) =
      if fsck_acceptable rc then (say fsck_clean >> return (ok tt)) else return (err fsck_errors)

  unfoldable pub wait_fsck : Option ℕ → Run (Tried Done)
  wait_fsck none = do say fsck_failed_to_run; return (ok tt)
  wait_fsck (some pid) = do w ← wait o (some pid) true; judge_fsck w

  unfoldable pub run_fsck : Bytes → Option Bytes → Run (Tried Done)
  run_fsck dev none = do say fsck_skipped; return (ok tt)
  run_fsck dev (some bin) = do pid ← spawn o (bin ∷ codes "-p" ∷ dev ∷ []) false []; wait_fsck pid

  unfoldable pub fsck : Bytes → Run (Tried Done)
  fsck dev = do bin ← find_fsck fsck_paths; run_fsck dev bin

  -- `_ = o.Unmount(rootMount)` before an error
  unfoldable pub refuse_mount : Failure → Run (Tried Done)
  refuse_mount why = do _ ← unmount o root_mount; return (err why)

  unfoldable pub judge_init : Option FileInfo → Run (Tried Done)
  judge_init st = if executable st then return (ok tt) else refuse_mount no_init

  unfoldable pub check_init : Run (Tried Done)
  check_init = do st ← stat o init_path; judge_init st

  unfoldable pub judge_mount : Option FileInfo → Option FileInfo → Run (Tried Done)
  judge_mount old new = if is_separate old new then check_init else refuse_mount not_separate

  unfoldable pub check_mount : Bool → Run (Tried Done)
  check_mount false = return (err mount_failed)
  check_mount true = do old ← stat o (codes "/"); new ← stat o root_mount; judge_mount old new

  unfoldable pub after_fsck : Bytes → Tried Done → Run (Tried Done)
  after_fsck dev (err why) = return (err why)
  after_fsck dev (ok u) = do r ← mount o dev root_mount root_fs_type []; check_mount r

  unfoldable pub mount_root : Bytes → Run (Tried Done)
  mount_root dev = do r ← fsck dev; after_fsck dev r
