-- ===== src/SystemInit/WatchdogFirst.antt =====
-- boot of systeminit.go starts the watchdog petter before it looks for storage.
use dc_1_pmos.Base.{
  ℕ, zero, suc, ◌≡◌, ◌≢◌, refl, ap, sym, ◌∙◌, Bool, true, false, List, [], ◌∷◌, ◌++◌, append_assoc,
  Option, none, some, Bytes, arith, ◌==◌, ok, err,
}
use dc_1_pmos.SystemInit.Decide.{root_fs_type}
use dc_1_pmos.SystemInit.Ops.{
  Failure, Event, said, opened_kmsg, made_dir, mounted, moved, checked, spawned, execed, probed,
  Log, Machine, ◌>>=◌, ◌>>◌, Done, open_kmsg,
}
use dc_1_pmos.SystemInit.Rescue.{
  busybox_path, Role, watchdog, Config, executable, role_argv, report_helper, spawn_helper, rescue,
}
use dc_1_pmos.SystemInit.Boot.{Tried}
use dc_1_pmos.SystemInit.Handoff.{
  base_dirs, make_dirs, prepare, move_all, roll_back, report_exec, exec_init, exec_if, give_back,
  hand_off, after_mount, after_find, after_busybox, boot,
}
use dc_1_pmos.SystemInit.Emits.{
  Emits, Emits-bind, Emits-then, Emits-return, Emits-if, Emits-one, Emits-weaken, emitted,
  GuardedBy, keeps_guards, say-Emits, mkdir-Emits, mount-Emits, move_mount-Emits, exec-Emits,
}
use dc_1_pmos.SystemInit.Early.{IsEarly, rescue-IsEarly, find_root-IsEarly, mount_root-IsEarly}

-- The petter was asked for, whether or not it could be started.
pub record Started (c : Config) (log : Log) : Type 0 where
  pub newer : Log
  pub older : Log
  pub child : Option ℕ
  pub asked : log ≡ newer ++ (spawned (role_argv c watchdog) true [] child ∷ older)

-- A probe, a mount of a root file system, a move and switch_root want the petter to be started.
abbrev pub StartGuard : Config → Event → Log → Type 0
StartGuard c (probed r) log = Started c log
StartGuard c (mounted source target fs_type options r) log = fs_type ≡ root_fs_type → Started c log
StartGuard c (moved old new r) log = Started c log
StartGuard c (execed path argv r) log = Started c log
StartGuard c _ log = Unit

Started-guard : (c : Config) (e : Event) (log : Log) → Started c log → StartGuard c e log
Started-guard c (probed r) log h = h
Started-guard c (mounted source target fs_type options r) log h = λ same. h
Started-guard c (moved old new r) log h = h
Started-guard c (execed path argv r) log h = h
Started-guard c _ log h = tt

Started-cons : (c : Config) (new log : Log) → Started c log → Started c (new ++ log)
Started-cons c new log h = record {
  newer = new ++ h.newer;
  older = h.older;
  child = h.child;
  asked = ap (λ (l : Log). new ++ l) h.asked ∙ sym (append_assoc new h.newer _);
}

Started-GuardedBy :
    (c : Config) (new log : Log)
    → Started c log
    → GuardedBy (StartGuard c) log
    → GuardedBy (StartGuard c) (new ++ log)
Started-GuardedBy c [] log h g = g
Started-GuardedBy c (e ∷ new) log h g =
    (Started-guard c e (new ++ log) (Started-cons c new log h), Started-GuardedBy c new log h g)

-- any event
abbrev Any : Event → Type 0
Any e = Unit {0}

early-Any : (e : Event) → IsEarly e → Any e
early-Any e h = tt

-- the events of `prepare`
abbrev IsFirst : Event → Type 0
IsFirst (said m) = Unit
IsFirst (made_dir path r) = Unit
IsFirst (mounted source target fs_type options r) = fs_type ≢ root_fs_type
IsFirst opened_kmsg = Unit
IsFirst _ = ⊥

first-guard : (c : Config) (e : Event) (log : Log) → IsFirst e → StartGuard c e log
first-guard c (said m) log h = tt
first-guard c (made_dir path r) log h = tt
first-guard c (mounted source target fs_type options r) log h = λ same. absurd (h same)
first-guard c opened_kmsg log h = tt
first-guard c _ log h = absurd h

module _ (o : Machine) where
  make_dirs-IsFirst : (ds : List Bytes) → Emits IsFirst (make_dirs o ds)
  unfolding make_dirs
  make_dirs-IsFirst [] = Emits-return IsFirst tt
  make_dirs-IsFirst (d ∷ ds) =
      Emits-bind IsFirst _ _ (mkdir-Emits IsFirst o d (λ r. tt)) (λ r. make_dirs-IsFirst ds)

  prepare-IsFirst : Emits IsFirst (prepare o)
  unfolding prepare
  prepare-IsFirst = Emits-then IsFirst _ _ (say-Emits IsFirst _ tt) (
      Emits-then IsFirst _ _ (make_dirs-IsFirst base_dirs) (
        Emits-bind IsFirst _ _ (mount-Emits IsFirst o _ _ _ _ (λ r. λ same. ground arith)) (λ r1.
          Emits-bind IsFirst _ _ (mount-Emits IsFirst o _ _ _ _ (λ r. λ same. ground arith)) (λ r2.
            Emits-bind IsFirst _ _ (mount-Emits IsFirst o _ _ _ _ (λ r. λ same. ground arith))
              (λ r3.
                Emits-then IsFirst _ _
                  (Emits-one IsFirst open_kmsg (λ log. opened_kmsg) (λ log. refl) (λ log. tt))
                  (say-Emits IsFirst _ tt))))))

  move_all-Any : (ms : List Bytes) (count : ℕ) → Emits Any (move_all o ms count)
  unfolding move_all
  move_all-Any [] count = Emits-return Any count
  move_all-Any (m ∷ ms) count = Emits-bind Any _ _ (move_mount-Emits Any o m _ (λ r. tt)) (λ r.
      Emits-if Any r _ _ (move_all-Any ms (suc count))
        (Emits-then Any _ _ (say-Emits Any _ tt) (Emits-return Any count)))

  roll_back-Any : (count : ℕ) → Emits Any (roll_back o count)
  unfolding roll_back
  roll_back-Any zero = Emits-return Any tt
  roll_back-Any (suc count) =
      Emits-bind Any _ _ (move_mount-Emits Any o _ _ (λ r. tt)) (λ r. roll_back-Any count)

  report_exec-Any : (r : Bool) → Emits Any (report_exec o r)
  unfolding report_exec
  report_exec-Any true = Emits-return Any true
  report_exec-Any false = Emits-then Any _ _ (say-Emits Any _ tt) (Emits-return Any false)

  exec_if-Any : (count : ℕ) → Emits Any (exec_if o count)
  unfolding exec_if exec_init
  exec_if-Any count =
      Emits-if Any (count == 3) _ _
        (Emits-bind Any _ _ (exec-Emits Any o _ _ (λ r. tt)) report_exec-Any)
        (Emits-return Any false)

  module _ (c : Config) (passes : ℕ) where
    rescue-Any : (why : Failure) → Emits Any (rescue o c passes why)
    rescue-Any why = Emits-weaken early-Any _ (rescue-IsEarly o c passes why)

    give_back-Any : (count : ℕ) (r : Bool) → Emits Any (give_back o c passes count r)
    unfolding give_back
    give_back-Any count true = Emits-return Any _
    give_back-Any count false = Emits-then Any _ _ (roll_back-Any count) (rescue-Any _)

    after_mount-Any : (dev : Bytes) (r : Tried Done) → Emits Any (after_mount o c passes dev r)
    unfolding after_mount hand_off
    after_mount-Any dev (err why) = rescue-Any why
    after_mount-Any dev (ok u) = Emits-then Any _ _ (say-Emits Any _ tt) (
        Emits-bind Any _ _ (move_all-Any _ 0)
          (λ count. Emits-bind Any _ _ (exec_if-Any count) (give_back-Any count)))

    after_find-Any : (r : Tried Bytes) → Emits Any (after_find o c passes r)
    unfolding after_find
    after_find-Any (err why) = rescue-Any why
    after_find-Any (ok dev) =
        Emits-bind Any _ _ (Emits-weaken early-Any _ (mount_root-IsEarly o dev))
          (after_mount-Any dev)

    after_busybox-Any : (r : Bool) → Emits Any (after_busybox o c passes r)
    unfolding after_busybox
    after_busybox-Any false = rescue-Any _
    after_busybox-Any true =
        Emits-bind Any _ _ (Emits-weaken early-Any _ (find_root-IsEarly o)) after_find-Any

    report_helper-Any : (role : Role) (r : Option ℕ) → Emits Any (report_helper o role r)
    unfolding report_helper
    report_helper-Any role none = say-Emits Any _ tt
    report_helper-Any role (some pid) = Emits-return Any tt

    -- Whatever the machine answers, boot has asked for the watchdog petter before it first probes for the
    -- root, and before it mounts an ext4 file system, moves a mount or executes switch_root.
    pub boot-GuardedBy : GuardedBy (StartGuard c) (boot o c passes []).1
    unfolding boot spawn_helper ◌>>=◌ ◌>>◌
    boot-GuardedBy =
        let log1 = (prepare o []).1 in
        let argv = role_argv c watchdog in
        let child = o.spawn log1 argv [] in
        let log2 : Log = spawned argv true [] child ∷ log1 in
        let started : Started c log2 = record {
          newer = [];
          older = log1;
          child = child;
          asked = refl;
        } in
        let g1 = keeps_guards (first-guard c) (prepare o) [] prepare-IsFirst tt in
        let (new, e, all) =
          emitted (report_helper o watchdog child) (report_helper-Any watchdog child) log2 in
        let log3 = (report_helper o watchdog child log2).1 in
        let st = o.stat log3 busybox_path in
        let log4 : Log = checked busybox_path st ∷ log3 in
        let (new', e', all') =
          emitted (after_busybox o c passes (executable st)) (after_busybox-Any (executable st))
            log4 in
        let whole : (after_busybox o c passes (executable st) log4).1
            ≡ (new' ++ (checked busybox_path st ∷ new)) ++ log2 =
          e'
          ∙ ap (λ (l : Log). new' ++ (checked busybox_path st ∷ l)) e
          ∙ sym (append_assoc new' (checked busybox_path st ∷ new) log2) in
        rw whole
          (Started-GuardedBy c (new' ++ (checked busybox_path st ∷ new)) log2 started (tt, g1))
