-- ===== src/SystemInit/Early.antt =====
-- Up to the move of the kernel's file systems, the init of systeminit.go moves no mount and executes no
-- program in its own place; what it knows of the root it has found and mounted.
use dc_1_pmos.Base.{
  ℕ, zero, suc, ◌-◌, refl, Bool, true, false, List, [], ◌∷◌, Option, none, some, Bytes, Result, ok,
  err,
}
use dc_1_pmos.SystemInit.Decide.{
  Candidate, RootError, select_root, root_wait_seconds, waiting_notice, fsck_acceptable, fsck_paths,
}
use dc_1_pmos.SystemInit.Ops.{
  FileInfo, Failure, Event, said, opened_kmsg, made_dir, mounted, moved, linked, wrote_sys, touched,
  spawned, waited, execed, slept, Machine, Run, Done, open_kmsg,
}
use dc_1_pmos.SystemInit.Rescue.{Role, Config, executable, spawn_helper, rescue}
use dc_1_pmos.SystemInit.Boot.{
  Tried, say_waiting, keep_waiting, wait_root, pick_root, decide_root, find_root, find_fsck,
  judge_fsck, wait_fsck, run_fsck, fsck, is_separate, refuse_mount, judge_init, check_init,
  judge_mount, check_mount, after_fsck, mount_root,
}
use dc_1_pmos.SystemInit.Handoff.{base_dirs, make_dirs, prepare}
use dc_1_pmos.SystemInit.Emits.{
  Emits, Emits-bind, Emits-then, Emits-return, Emits-if, Emits-one, Emits-weaken, say-Emits,
  sleep-Emits, mkdir-Emits, mount-Emits, unmount-Emits, stat-Emits, spawn-Emits, wait-Emits,
  probe_roots-Emits,
}
use dc_1_pmos.SystemInit.Quiet.{IsQuiet, spawn_helper-IsQuiet, rescue-IsQuiet}

abbrev pub IsEarly : Event → Type 0
IsEarly (moved old new r) = ⊥
IsEarly (execed path argv r) = ⊥
IsEarly _ = Unit

quiet-IsEarly : (e : Event) → IsQuiet e → IsEarly e
quiet-IsEarly (moved old new r) q = q
quiet-IsEarly (execed path argv r) q = q
quiet-IsEarly (said m) q = tt
quiet-IsEarly (made_dir path r) q = tt
quiet-IsEarly (mounted source target fs_type options r) q = tt
quiet-IsEarly (linked link target r) q = tt
quiet-IsEarly (wrote_sys path value r) q = tt
quiet-IsEarly (touched path r) q = tt
quiet-IsEarly (spawned argv marked tty r) q = tt
quiet-IsEarly (waited pid block r) q = tt
quiet-IsEarly (slept n) q = tt
quiet-IsEarly _ q = absurd q

module _ (o : Machine) where
  pub spawn_helper-IsEarly : (c : Config) (role : Role) → Emits IsEarly (spawn_helper o c role)
  spawn_helper-IsEarly c role = Emits-weaken quiet-IsEarly _ (spawn_helper-IsQuiet o c role)

  pub rescue-IsEarly :
      (c : Config) (passes : ℕ) (why : Failure) → Emits IsEarly (rescue o c passes why)
  rescue-IsEarly c passes why = Emits-weaken quiet-IsEarly _ (rescue-IsQuiet o c passes why)

  make_dirs-IsEarly : (ds : List Bytes) → Emits IsEarly (make_dirs o ds)
  unfolding make_dirs
  make_dirs-IsEarly [] = Emits-return IsEarly tt
  make_dirs-IsEarly (d ∷ ds) =
      Emits-bind IsEarly _ _ (mkdir-Emits IsEarly o d (λ r. tt)) (λ r. make_dirs-IsEarly ds)

  pub prepare-IsEarly : Emits IsEarly (prepare o)
  unfolding prepare
  prepare-IsEarly = Emits-then IsEarly _ _ (say-Emits IsEarly _ tt) (
      Emits-then IsEarly _ _ (make_dirs-IsEarly base_dirs) (
        Emits-bind IsEarly _ _ (mount-Emits IsEarly o _ _ _ _ (λ r. tt)) (λ r1.
          Emits-bind IsEarly _ _ (mount-Emits IsEarly o _ _ _ _ (λ r. tt)) (λ r2.
            Emits-bind IsEarly _ _ (mount-Emits IsEarly o _ _ _ _ (λ r. tt)) (λ r3.
              Emits-then IsEarly _ _
                (Emits-one IsEarly open_kmsg (λ log. opened_kmsg) (λ log. refl) (λ log. tt))
                (say-Emits IsEarly _ tt))))))

  keep_waiting-IsEarly :
      (second : ℕ) (later : Run (Option (List Candidate))) (r : Option (List Candidate))
      → Emits IsEarly later
      → Emits IsEarly (keep_waiting o second later r)
  unfolding keep_waiting say_waiting
  keep_waiting-IsEarly second later (some cands) f = Emits-return IsEarly _
  keep_waiting-IsEarly second later none f =
      Emits-then IsEarly _ _
        (Emits-if IsEarly (waiting_notice second) _ _ (say-Emits IsEarly _ tt)
          (Emits-return IsEarly tt))
        (Emits-then IsEarly _ _ (sleep-Emits IsEarly 1 tt) f)

  wait_root-IsEarly : (left : ℕ) → Emits IsEarly (wait_root o left)
  unfolding wait_root
  wait_root-IsEarly zero = probe_roots-Emits IsEarly o (λ r. tt)
  wait_root-IsEarly (suc left) =
      Emits-bind IsEarly _ _ (probe_roots-Emits IsEarly o (λ r. tt))
        (λ r. keep_waiting-IsEarly _ _ r (wait_root-IsEarly left))

  pick_root-IsEarly : (r : Result RootError Bytes) → Emits IsEarly (pick_root o r)
  unfolding pick_root
  pick_root-IsEarly (err e) = Emits-return IsEarly _
  pick_root-IsEarly (ok dev) =
      Emits-then IsEarly _ _ (say-Emits IsEarly _ tt) (Emits-return IsEarly _)

  decide_root-IsEarly : (r : Option (List Candidate)) → Emits IsEarly (decide_root o r)
  unfolding decide_root
  decide_root-IsEarly none = Emits-return IsEarly _
  decide_root-IsEarly (some cands) = pick_root-IsEarly (select_root cands)

  pub find_root-IsEarly : Emits IsEarly (find_root o)
  unfolding find_root
  find_root-IsEarly =
      Emits-bind IsEarly _ _ (wait_root-IsEarly (root_wait_seconds - 1)) decide_root-IsEarly

  find_fsck-IsEarly : (ps : List Bytes) → Emits IsEarly (find_fsck o ps)
  unfolding find_fsck
  find_fsck-IsEarly [] = Emits-return IsEarly _
  find_fsck-IsEarly (p ∷ ps) =
      Emits-bind IsEarly _ _ (stat-Emits IsEarly o p (λ r. tt))
        (λ st. Emits-if IsEarly (executable st) _ _ (Emits-return IsEarly _) (find_fsck-IsEarly ps))

  judge_fsck-IsEarly : (w : Option (ℕ × Option ℕ)) → Emits IsEarly (judge_fsck o w)
  unfolding judge_fsck
  judge_fsck-IsEarly none = Emits-then IsEarly _ _ (say-Emits IsEarly _ tt) (Emits-return IsEarly _)
  judge_fsck-IsEarly (some (pid, rc)) =
      Emits-if IsEarly (fsck_acceptable rc) _ _
        (Emits-then IsEarly _ _ (say-Emits IsEarly _ tt) (Emits-return IsEarly _))
        (Emits-return IsEarly _)

  wait_fsck-IsEarly : (pid : Option ℕ) → Emits IsEarly (wait_fsck o pid)
  unfolding wait_fsck
  wait_fsck-IsEarly none = Emits-then IsEarly _ _ (say-Emits IsEarly _ tt) (Emits-return IsEarly _)
  wait_fsck-IsEarly (some pid) =
      Emits-bind IsEarly _ _ (wait-Emits IsEarly o (some pid) true (λ r. tt)) judge_fsck-IsEarly

  run_fsck-IsEarly : (dev : Bytes) (bin : Option Bytes) → Emits IsEarly (run_fsck o dev bin)
  unfolding run_fsck
  run_fsck-IsEarly dev none =
      Emits-then IsEarly _ _ (say-Emits IsEarly _ tt) (Emits-return IsEarly _)
  run_fsck-IsEarly dev (some bin) =
      Emits-bind IsEarly _ _ (spawn-Emits IsEarly o _ _ _ (λ r. tt)) wait_fsck-IsEarly

  pub fsck-IsEarly : (dev : Bytes) → Emits IsEarly (fsck o dev)
  unfolding fsck
  fsck-IsEarly dev = Emits-bind IsEarly _ _ (find_fsck-IsEarly fsck_paths) (run_fsck-IsEarly dev)

  refuse_mount-IsEarly : (why : Failure) → Emits IsEarly (refuse_mount o why)
  unfolding refuse_mount
  refuse_mount-IsEarly why =
      Emits-bind IsEarly _ _ (unmount-Emits IsEarly o _ (λ r. tt)) (λ r. Emits-return IsEarly _)

  judge_init-IsEarly : (st : Option FileInfo) → Emits IsEarly (judge_init o st)
  unfolding judge_init
  judge_init-IsEarly st =
      Emits-if IsEarly (executable st) _ _ (Emits-return IsEarly _) (refuse_mount-IsEarly _)

  check_init-IsEarly : Emits IsEarly (check_init o)
  unfolding check_init
  check_init-IsEarly = Emits-bind IsEarly _ _ (stat-Emits IsEarly o _ (λ r. tt)) judge_init-IsEarly

  judge_mount-IsEarly : (old new : Option FileInfo) → Emits IsEarly (judge_mount o old new)
  unfolding judge_mount
  judge_mount-IsEarly old new =
      Emits-if IsEarly (is_separate old new) _ _ check_init-IsEarly (refuse_mount-IsEarly _)

  check_mount-IsEarly : (r : Bool) → Emits IsEarly (check_mount o r)
  unfolding check_mount
  check_mount-IsEarly false = Emits-return IsEarly _
  check_mount-IsEarly true =
      Emits-bind IsEarly _ _ (stat-Emits IsEarly o _ (λ r. tt))
        (λ old. Emits-bind IsEarly _ _ (stat-Emits IsEarly o _ (λ r. tt)) (judge_mount-IsEarly old))

  after_fsck-IsEarly : (dev : Bytes) (r : Tried Done) → Emits IsEarly (after_fsck o dev r)
  unfolding after_fsck
  after_fsck-IsEarly dev (err why) = Emits-return IsEarly _
  after_fsck-IsEarly dev (ok u) =
      Emits-bind IsEarly _ _ (mount-Emits IsEarly o _ _ _ _ (λ r. tt)) check_mount-IsEarly

  pub mount_root-IsEarly : (dev : Bytes) → Emits IsEarly (mount_root o dev)
  unfolding mount_root
  mount_root-IsEarly dev = Emits-bind IsEarly _ _ (fsck-IsEarly dev) (after_fsck-IsEarly dev)
