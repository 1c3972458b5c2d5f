-- ===== src/SystemInit/Switch.antt =====
-- The way to switch_root in systeminit.go: what has happened when it is executed.
use dc_1_pmos.Base.{
  ℕ, zero, suc, ◌+◌, ◌≤◌, ◌≡◌, refl, sym, subst, ◌∙◌, Bool, true, false, List, [], ◌∷◌, ◌++◌, Bytes,
  inl, inr, length, arith, ◌==◌, ==_iff, Bool-cases, ok, err,
}
use dc_1_pmos.SystemInit.Ops.{
  said, moved, checked, execed, switching, Log, Machine, ◌>>=◌, ◌>>◌, Done,
}
use dc_1_pmos.SystemInit.Rescue.{
  busybox_path, root_mount, kernel_mounts, watchdog, Config, executable, spawn_helper, rescue,
}
use dc_1_pmos.SystemInit.Boot.{Tried, find_root, mount_root}
use dc_1_pmos.SystemInit.Handoff.{
  switch_argv, prepare, move_all, roll_back, report_exec, exec_init, exec_if, give_back, hand_off,
  after_mount, after_find, after_busybox, boot,
}
use dc_1_pmos.SystemInit.Emits.{
  Emits, Emits-bind, Emits-then, Emits-return, Emits-if, Emits-weaken, emitted, say-Emits,
  move_mount-Emits,
}
use dc_1_pmos.SystemInit.Early.{
  spawn_helper-IsEarly, rescue-IsEarly, prepare-IsEarly, find_root-IsEarly, mount_root-IsEarly,
}
use dc_1_pmos.SystemInit.Verified.{Found, Checked, find_root-Found, mount_root-Checked}
use dc_1_pmos.SystemInit.ExecGuard.{
  Ready, IsGuarded, IsNoExec, early-IsNoExec, keeps_guard, early_keeps,
}

abbrev all_moved : List Bytes → Log → Log
all_moved [] log = log
all_moved (m ∷ ms) log = all_moved ms (moved m (root_mount ++ m) true ∷ log)

module _ (o : Machine) where
  move_all-IsNoExec : (ms : List Bytes) (count : ℕ) → Emits IsNoExec (move_all o ms count)
  unfolding move_all
  move_all-IsNoExec [] count = Emits-return IsNoExec count
  move_all-IsNoExec (m ∷ ms) count =
      Emits-bind IsNoExec _ _ (move_mount-Emits IsNoExec o m _ (λ r. tt)) (λ r.
        Emits-if IsNoExec r _ _ (move_all-IsNoExec ms (suc count))
          (Emits-then IsNoExec _ _ (say-Emits IsNoExec _ tt) (Emits-return IsNoExec count)))

  roll_back-IsNoExec : (count : ℕ) → Emits IsNoExec (roll_back o count)
  unfolding roll_back
  roll_back-IsNoExec zero = Emits-return IsNoExec tt
  roll_back-IsNoExec (suc count) =
      Emits-bind IsNoExec _ _ (move_mount-Emits IsNoExec o _ _ (λ r. tt))
        (λ r. roll_back-IsNoExec count)

  report_exec-IsNoExec : (r : Bool) → Emits IsNoExec (report_exec o r)
  unfolding report_exec
  report_exec-IsNoExec true = Emits-return IsNoExec true
  report_exec-IsNoExec false =
      Emits-then IsNoExec _ _ (say-Emits IsNoExec _ tt) (Emits-return IsNoExec false)

  give_back-IsNoExec :
      (c : Config) (passes count : ℕ) (r : Bool) → Emits IsNoExec (give_back o c passes count r)
  unfolding give_back
  give_back-IsNoExec c passes count true = Emits-return IsNoExec _
  give_back-IsNoExec c passes count false =
      Emits-then IsNoExec _ _ (roll_back-IsNoExec count)
        (Emits-weaken early-IsNoExec _ (rescue-IsEarly o c passes _))

  move_all-bound :
      (ms : List Bytes) (count : ℕ) (log : Log) → (move_all o ms count log).0 ≤ count + length ms
  unfolding move_all ◌>>=◌ ◌>>◌
  move_all-bound [] count log = omega arith
  move_all-bound (m ∷ ms) count log = elim (Bool-cases (o.move_mount log m (root_mount ++ m))) [
    | inl r ↦
        rw r (omega (arith, move_all-bound ms (suc count) (moved m (root_mount ++ m) true ∷ log)))
    | inr r ↦ rw r (omega arith)
  ]

  -- The loop counts all of its mounts only if every one was moved.
  move_all-all :
      (ms : List Bytes) (count : ℕ) (log : Log)
      → (move_all o ms count log).0 ≡ count + length ms
      → (move_all o ms count log).1 ≡ all_moved ms log
  unfolding move_all ◌>>=◌ ◌>>◌
  move_all-all [] count log h = refl
  move_all-all (m ∷ ms) count log h = elim (Bool-cases (o.move_mount log m (root_mount ++ m))) [
    | inl r ↦
        let log' : Log = moved m (root_mount ++ m) true ∷ log in
        let counted : (move_all o ms (suc count) log').0 ≡ suc count + length ms =
          (rw r at h) ∙ omega arith in
        rw r (move_all-all ms (suc count) log' counted)
    | inr r ↦ let stopped : count ≡ count + suc (length ms) = (rw r at h) in absurd (omega arith)
  ]

  exec_init-IsGuarded : (log : Log) → Ready log → IsGuarded log → IsGuarded (exec_init o log).1
  unfolding exec_init ◌>>=◌ IsGuarded
  exec_init-IsGuarded log ready g =
      let r = o.exec log busybox_path switch_argv in
      keeps_guard (report_exec o r) (execed busybox_path switch_argv r ∷ log)
        (report_exec-IsNoExec r) ((refl, refl, ready), g)

  exec_if-IsGuarded :
      (count : ℕ) (log : Log)
      → (count ≡ 3 → Ready log)
      → IsGuarded log
      → IsGuarded (exec_if o count log).1
  unfolding exec_if
  exec_if-IsGuarded count log ready g = elim (Bool-cases (count == 3)) [
    | inl all ↦ rw all (exec_init-IsGuarded log (ready ((==_iff count 3).0 all)) g)
    | inr part ↦ rw part g
  ]

  module _ (c : Config) (passes : ℕ) where
    hand_off-IsGuarded :
        (dev : Bytes) (at_found since : Log)
        → Found dev at_found
        → Checked dev (since ++ at_found)
        → IsGuarded (since ++ at_found)
        → IsGuarded (hand_off o c passes dev (since ++ at_found)).1
    unfolding hand_off ◌>>=◌ ◌>>◌
    hand_off-IsGuarded dev at_found since found root g =
        let before : Log = since ++ at_found in
        let log1 : Log = said (switching dev) ∷ before in
        let step = move_all o kernel_mounts 0 log1 in
        let g1 : IsGuarded log1 = unfold IsGuarded in (tt, g) in
        let g2 : IsGuarded step.1 =
          keeps_guard (move_all o kernel_mounts 0) log1 (move_all-IsNoExec kernel_mounts 0) g1 in
        let ready : step.0 ≡ 3 → Ready step.1 = λ all. record {
          dev = dev;
          at_found = at_found;
          since_found = since;
          before = before;
          found = found;
          follows = refl;
          root_checked = root;
          all_moved = move_all-all kernel_mounts 0 log1 all;
        } in
        let g3 = exec_if-IsGuarded step.0 step.1 ready g2 in
        let step' = exec_if o step.0 step.1 in
        keeps_guard (give_back o c passes step.0 step'.0) step'.1
          (give_back-IsNoExec c passes step.0 step'.0) g3

    after_mount-IsGuarded :
        (dev : Bytes) (r : Tried Done) (at_found since : Log)
        → Found dev at_found
        → ((u : Done) → r ≡ ok u → Checked dev (since ++ at_found))
        → IsGuarded (since ++ at_found)
        → IsGuarded (after_mount o c passes dev r (since ++ at_found)).1
    unfolding after_mount
    after_mount-IsGuarded dev (err why) at_found since found root g =
        early_keeps (rescue o c passes why) _ (rescue-IsEarly o c passes why) g
    after_mount-IsGuarded dev (ok u) at_found since found root g =
        hand_off-IsGuarded dev at_found since found (root u refl) g

    after_find-IsGuarded :
        (r : Tried Bytes) (log : Log)
        → ((dev : Bytes) → r ≡ ok dev → Found dev log)
        → IsGuarded log
        → IsGuarded (after_find o c passes r log).1
    unfolding after_find ◌>>=◌
    after_find-IsGuarded (err why) log found g =
        early_keeps (rescue o c passes why) log (rescue-IsEarly o c passes why) g
    after_find-IsGuarded (ok dev) log found g =
        let r = mount_root o dev log in
        let (since, e, early) = emitted (mount_root o dev) (mount_root-IsEarly o dev) log in
        let g' : IsGuarded r.1 = early_keeps (mount_root o dev) log (mount_root-IsEarly o dev) g in
        let seen : (u : Done) → r.0 ≡ ok u → Checked dev (since ++ log) =
          λ u h. subst (Checked dev) e (mount_root-Checked o dev log h) in
        subst (λ (l : Log). IsGuarded (after_mount o c passes dev r.0 l).1) (sym e)
          (after_mount-IsGuarded dev r.0 log since (found dev refl) seen (subst IsGuarded e g'))

    after_busybox-IsGuarded :
        (r : Bool) (log : Log) → IsGuarded log → IsGuarded (after_busybox o c passes r log).1
    unfolding after_busybox ◌>>=◌
    after_busybox-IsGuarded false log g =
        early_keeps (rescue o c passes _) log (rescue-IsEarly o c passes _) g
    after_busybox-IsGuarded true log g =
        after_find-IsGuarded (find_root o log).0 (find_root o log).1
          (λ dev h. find_root-Found o log h) (early_keeps (find_root o) log (find_root-IsEarly o) g)

    -- Whatever the machine answers, boot executes no program in the init's place but busybox switch_root
    -- on /mnt/root, and that only when the last probe found exactly one root file system, its device was
    -- mounted at /mnt/root and checked after it was found, and then /dev, /proc and /sys were moved into
    -- it, all without an error.
    pub boot-IsGuarded : IsGuarded (boot o c passes []).1
    unfolding boot ◌>>=◌ ◌>>◌
    boot-IsGuarded =
        let log1 = (prepare o []).1 in
        let log2 = (spawn_helper o c watchdog log1).1 in
        let st = o.stat log2 busybox_path in
        let g1 : IsGuarded log1 =
          early_keeps (prepare o) [] (prepare-IsEarly o) (unfold IsGuarded in tt) in
        let g2 : IsGuarded log2 =
          early_keeps (spawn_helper o c watchdog) log1 (spawn_helper-IsEarly o c watchdog) g1 in
        let g3 : IsGuarded (checked busybox_path st ∷ log2) = unfold IsGuarded in (tt, g2) in
        after_busybox-IsGuarded (executable st) (checked busybox_path st ∷ log2) g3
