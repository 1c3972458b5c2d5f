-- ===== src/SystemInit/Verified.antt =====
-- What findRoot and mountRoot of systeminit.go have seen when they return no error.
use dc_1_pmos.Base.{
  ℕ, zero, suc, ◌-◌, ◌≡◌, ◌≢◌, refl, ap, sym, ◌∙◌, Bool, true, false, List, [], ◌∷◌, Option, none,
  some, Bytes, codes, inl, inr, arith, Bool-cases, Result, ok, err,
}
use dc_1_pmos.SystemInit.Decide.{Candidate, RootError, select_root, root_fs_type, root_wait_seconds}
use dc_1_pmos.SystemInit.Ops.{
  FileInfo, is_executable, said, mounted, checked, probed, root_found, Log, Machine, Run, ◌>>=◌,
  ◌>>◌, Done,
}
use dc_1_pmos.SystemInit.Rescue.{root_mount, executable}
use dc_1_pmos.SystemInit.Boot.{
  Tried, init_path, keep_waiting, wait_root, pick_root, decide_root, find_root, fsck, is_separate,
  refuse_mount, judge_init, check_init, judge_mount, check_mount, after_fsck, mount_root,
}

-- The last probe found one root, and the init said so.
pub record Found (dev : Bytes) (log : Log) : Type 0 where
  pub cands : List Candidate
  pub earlier : Log
  pub probed_last : log ≡ said (root_found dev) ∷ probed (some cands) ∷ earlier
  pub only_root : select_root cands ≡ ok dev

-- The device was mounted without an error, on another file system than the initramfs has, and there is
-- an executable init on it.
pub record Checked (dev : Bytes) (log : Log) : Type 0 where
  pub old : FileInfo
  pub new : FileInfo
  pub init : FileInfo
  pub earlier : Log
  pub checked_last :
      log
      ≡ checked init_path (some init)
        ∷ checked root_mount (some new)
        ∷ checked (codes "/") (some old)
        ∷ mounted dev root_mount root_fs_type [] true
        ∷ earlier
  pub separate : old.dev ≢ new.dev
  pub init_executable : is_executable init ≡ true

module _ (o : Machine) where
  keep_waiting-probed :
      (second : ℕ) (later : Run (Option (List Candidate))) (r : Option (List Candidate)) (log : Log)
      {cands : List Candidate}
      → ((log' : Log)
          → (later log').0 ≡ some cands
          → (earlier : Log) × ((later log').1 ≡ probed (some cands) ∷ earlier))
      → (keep_waiting o second later r (probed r ∷ log)).0 ≡ some cands
      → (earlier : Log) × ((keep_waiting o second later r (probed r ∷ log)).1
          ≡ probed (some cands) ∷ earlier)
  unfolding keep_waiting ◌>>◌
  keep_waiting-probed second later (some found) log ih h =
      (log, ap (λ (r : Option (List Candidate)). probed r ∷ log) h)
  keep_waiting-probed second later none log ih h = ih _ h

  wait_root-probed :
      (left : ℕ) (log : Log) {cands : List Candidate}
      → (wait_root o left log).0 ≡ some cands
      → (earlier : Log) × ((wait_root o left log).1 ≡ probed (some cands) ∷ earlier)
  unfolding wait_root ◌>>=◌
  wait_root-probed zero log h = (log, ap (λ (r : Option (List Candidate)). probed r ∷ log) h)
  wait_root-probed (suc left) log h =
      keep_waiting-probed _ (wait_root o left) (o.probe_roots log) log
        (λ log'. wait_root-probed left log') h

  pick_root-ok :
      (r : Result RootError Bytes) (log : Log) {dev : Bytes}
      → (pick_root o r log).0 ≡ ok dev
      → (r ≡ ok dev) × ((pick_root o r log).1 ≡ said (root_found dev) ∷ log)
  unfolding pick_root ◌>>◌
  pick_root-ok (err e) log h = cc
  pick_root-ok (ok d) log {dev} h =
      let same : d ≡ dev = cc in
      (ap (λ (x : Bytes). ok x) same, ap (λ (x : Bytes). said (root_found x) ∷ log) same)

  decide_root-Found :
      (r : Option (List Candidate)) (log : Log) {dev : Bytes}
      → ((cands : List Candidate)
          → r ≡ some cands
          → (earlier : Log) × (log ≡ probed (some cands) ∷ earlier))
      → (decide_root o r log).0 ≡ ok dev
      → Found dev (decide_root o r log).1
  unfolding decide_root
  decide_root-Found none log seen h = cc
  decide_root-Found (some cands) log {dev} seen h =
      let (chosen, spoken) = pick_root-ok (select_root cands) log h in
      let (earlier, last) = seen cands refl in
      record {
        cands = cands;
        earlier = earlier;
        probed_last = spoken ∙ ap (λ (l : Log). said (root_found dev) ∷ l) last;
        only_root = chosen;
      }

  pub find_root-Found :
      (log : Log) {dev : Bytes} → (find_root o log).0 ≡ ok dev → Found dev (find_root o log).1
  unfolding find_root ◌>>=◌
  find_root-Found log h =
      decide_root-Found (wait_root o (root_wait_seconds - 1) log).0 _
        (λ cands e. wait_root-probed (root_wait_seconds - 1) log e) h

  judge_init-ok :
      (st : Option FileInfo) (log : Log) {u : Done}
      → (judge_init o st log).0 ≡ ok u
      → (init : FileInfo) × (st ≡ some init)
        × ((judge_init o st log).1 ≡ log)
        × (is_executable init ≡ true)
  unfolding judge_init refuse_mount executable ◌>>=◌
  judge_init-ok none log h = cc
  judge_init-ok (some f) log h = elim (Bool-cases (is_executable f)) [
    | inl runs ↦ (f, refl, rw runs, runs)
    | inr not_run ↦ absurd (ground arith)
  ]

  judge_mount-ok :
      (old new : Option FileInfo) (log : Log) {u : Done}
      → (judge_mount o old new log).0 ≡ ok u
      → (is_separate old new ≡ true) × ((judge_mount o old new log) ≡ check_init o log)
  unfolding judge_mount refuse_mount ◌>>=◌
  judge_mount-ok old new log h = elim (Bool-cases (is_separate old new)) [
    | inl apart ↦ (apart, rw apart)
    | inr together ↦ absurd (ground arith)
  ]

  is_separate-some :
      (old new : Option FileInfo)
      → is_separate old new ≡ true
      → (a : FileInfo) × (b : FileInfo) × (old ≡ some a) × (new ≡ some b) × (a.dev ≢ b.dev)
  unfolding is_separate
  is_separate-some none new h = cc
  is_separate-some (some a) none h = cc
  is_separate-some (some a) (some b) h = (a, b, refl, refl, λ same. ground arith)

  check_init-ok :
      (log : Log) {u : Done}
      → (check_init o log).0 ≡ ok u
      → (init : FileInfo) × ((check_init o log).1 ≡ checked init_path (some init) ∷ log)
        × (is_executable init ≡ true)
  unfolding check_init ◌>>=◌
  check_init-ok log h =
      let (init, found, kept, runs) = judge_init-ok (o.stat log init_path) _ h in
      (init, kept ∙ ap (λ (st : Option FileInfo). checked init_path st ∷ log) found, runs)

  check_mount-Checked :
      (r : Bool) (log : Log) {dev : Bytes} {u : Done}
      → (check_mount o r (mounted dev root_mount root_fs_type [] r ∷ log)).0 ≡ ok u
      → Checked dev (check_mount o r (mounted dev root_mount root_fs_type [] r ∷ log)).1
  unfolding check_mount ◌>>=◌
  check_mount-Checked false log h = cc
  check_mount-Checked true log {dev} {u} h =
      let log1 : Log = mounted dev root_mount root_fs_type [] true ∷ log in
      let old = o.stat log1 (codes "/") in
      let log2 : Log = checked (codes "/") old ∷ log1 in
      let new = o.stat log2 root_mount in
      let log3 : Log = checked root_mount new ∷ log2 in
      let (apart, same) = judge_mount-ok old new log3 h in
      let (a, b, is_a, is_b, devs) = is_separate-some old new apart in
      let h' : (check_init o log3).0 ≡ ok u = ap (λ (x : Tried Done × Log). x.0) (sym same) ∙ h in
      let (init, last, runs) = check_init-ok log3 h' in
      record {
        old = a;
        new = b;
        init = init;
        earlier = log;
        checked_last =
            ap (λ (x : Tried Done × Log). x.1) same
            ∙ last
            ∙ ap
                (λ (st : Option FileInfo).
                  checked init_path (some init) ∷ checked root_mount st ∷ log2)
                is_b
            ∙ ap
                (λ (st : Option FileInfo).
                  checked init_path (some init)
                  ∷ checked root_mount (some b)
                  ∷ checked (codes "/") st
                  ∷ log1)
                is_a;
        separate = devs;
        init_executable = runs;
      }

  after_fsck-Checked :
      (dev : Bytes) (r : Tried Done) (log : Log) {u : Done}
      → (after_fsck o dev r log).0 ≡ ok u
      → Checked dev (after_fsck o dev r log).1
  unfolding after_fsck ◌>>=◌
  after_fsck-Checked dev (err why) log h = cc
  after_fsck-Checked dev (ok u) log h =
      check_mount-Checked (o.mount log dev root_mount root_fs_type []) log h

  pub mount_root-Checked :
      (dev : Bytes) (log : Log) {u : Done}
      → (mount_root o dev log).0 ≡ ok u
      → Checked dev (mount_root o dev log).1
  unfolding mount_root ◌>>=◌
  mount_root-Checked dev log h = after_fsck-Checked dev (fsck o dev log).0 (fsck o dev log).1 h
