-- ===== src/SystemInit/Ops.antt =====
-- The interface Ops of installer/gotools/internal/systeminit/ops.go. A call is an event with its
-- result, the log lists the events, newest first, and the machine is a parameter: it answers every
-- call as it likes, by the log so far and the call. The texts of the system's errors are left out.
use Prim.Native.Nat.{bit_and}
use dc_1_pmos.Base.{ℕ, Bool, not, List, ◌∷◌, Option, ◌==◌, Bytes}
use dc_1_pmos.SystemInit.Decide.{Candidate, RootError}

pub record FileInfo : Type 0 where
  pub dev : ℕ
  pub mode : ℕ
  pub mtime : ℕ

-- FileInfo.Executable: one of the bits 0o111
unfoldable pub is_executable : FileInfo → Bool
is_executable f = not (bit_and f.mode 73 == 0)

-- why rescue was entered
pub data Failure : Type 0 where
  no_busybox fsck_errors mount_failed not_separate no_init switch_failed : Failure
  never_found : Failure
  bad_root : RootError → Failure

-- what the init says
pub data Message : Type 0 where
  starting mounted_base no_configfs udc_failed lease_expired plain_reset pet_failed no_watchdog
        petting :
      Message
  fsck_skipped fsck_clean fsck_failed_to_run exec_failed deadman_armed : Message
  still_waiting : ℕ → Message
  root_found switching move_failed udc_bound helper_failed : Bytes → Message
  rescue_shell : Failure → Message
  nothing_written : Message

pub data Made : Type 0 where
  made exists failed : Made

-- the calls of Ops with what they returned; `true` stands for no error
pub data Event : Type 0 where
  said : Message → Event
  opened_kmsg : Event
  made_dir : Bytes → Made → Event
  mounted : Bytes → Bytes → Bytes → Bytes → Bool → Event
  unmounted : Bytes → Bool → Event
  moved : Bytes → Bytes → Bool → Event
  linked wrote_sys : Bytes → Bytes → Bool → Event
  touched : Bytes → Bool → Event
  checked : Bytes → Option FileInfo → Event
  opened_read opened_write : Bytes → Bool → Event
  spawned : List Bytes → Bool → Bytes → Option ℕ → Event
  -- Wait: the child asked for, whether it blocks, and the child found with its exit code, if not negative
  waited : Option ℕ → Bool → Option (ℕ × Option ℕ) → Event
  execed : Bytes → List Bytes → Bool → Event
  probed : Option (List Candidate) → Event
  armed : Bool → Event
  asked_time : Option ℕ → Event
  slept : ℕ → Event
  petted copied closed : Bool → Event

abbrev pub Log : Type 0
Log = List Event

-- the machine
pub record Machine : Type 0 where
  pub mkdir : Log → Bytes → Made
  pub mount : Log → Bytes → Bytes → Bytes → Bytes → Bool
  pub unmount : Log → Bytes → Bool
  pub move_mount : Log → Bytes → Bytes → Bool
  pub symlink : Log → Bytes → Bytes → Bool
  pub write_sys : Log → Bytes → Bytes → Bool
  pub touch : Log → Bytes → Bool
  pub open_read : Log → Bytes → Bool
  pub open_write : Log → Bytes → Bool
  pub stat : Log → Bytes → Option FileInfo
  pub spawn : Log → List Bytes → Bytes → Option ℕ
  pub wait : Log → Option ℕ → Bool → Option (ℕ × Option ℕ)
  pub exec : Log → Bytes → List Bytes → Bool
  pub probe_roots : Log → Option (List Candidate)
  pub arm_fastboot : Log → Bool
  pub pet : Log → Bool
  pub copy : Log → Bool
  pub now : Log → Option ℕ

-- A computation that extends the log.
abbrev pub Run {ℓ} : Type ℓ → Type ℓ
Run A = Log → A × Log

module _ {ℓ κ} {A : Type ℓ} {B : Type κ} where
  infixl 5 ◌>>=◌ ◌>>◌
  unfoldable pub ◌>>=◌ : Run A → (A → Run B) → Run B
  ◌>>=◌ first rest log = let step = first log in rest step.0 step.1

  unfoldable pub ◌>>◌ : Run A → Run B → Run B
  ◌>>◌ first rest log = rest (first log).1

abbrev pub return {ℓ} : {A : Type ℓ} → A → Run A
return a log = (a, log)

abbrev pub Done : Type 0
Done = Unit {0}

-- the calls
abbrev pub say : Message → Run Done
say m log = (tt, said m ∷ log)

abbrev pub open_kmsg : Run Done
open_kmsg log = (tt, opened_kmsg ∷ log)

abbrev pub sleep : ℕ → Run Done
sleep seconds log = (tt, slept seconds ∷ log)

module _ (o : Machine) where
  abbrev pub mkdir : Bytes → Run Made
  mkdir path log = let r = o.mkdir log path in (r, made_dir path r ∷ log)

  abbrev pub mount : Bytes → Bytes → Bytes → Bytes → Run Bool
  mount source target fs_type options log =
      let r = o.mount log source target fs_type options in
      (r, mounted source target fs_type options r ∷ log)

  abbrev pub unmount : Bytes → Run Bool
  unmount target log = let r = o.unmount log target in (r, unmounted target r ∷ log)

  abbrev pub move_mount : Bytes → Bytes → Run Bool
  move_mount old new log = let r = o.move_mount log old new in (r, moved old new r ∷ log)

  abbrev pub symlink : Bytes → Bytes → Run Bool
  symlink link target log = let r = o.symlink log link target in (r, linked link target r ∷ log)

  abbrev pub write_sys : Bytes → Bytes → Run Bool
  write_sys path value log = let r = o.write_sys log path value in (r, wrote_sys path value r ∷ log)

  abbrev pub touch : Bytes → Run Bool
  touch path log = let r = o.touch log path in (r, touched path r ∷ log)

  abbrev pub stat : Bytes → Run (Option FileInfo)
  stat path log = let r = o.stat log path in (r, checked path r ∷ log)

  abbrev pub open_write : Bytes → Run Bool
  open_write path log = let r = o.open_write log path in (r, opened_write path r ∷ log)

  abbrev pub open_read : Bytes → Run Bool
  open_read path log = let r = o.open_read log path in (r, opened_read path r ∷ log)

  -- Spawn: the arguments, the first of which is the program, whether the helper's mark is set, the tty
  abbrev pub spawn : List Bytes → Bool → Bytes → Run (Option ℕ)
  spawn argv marked tty log = let r = o.spawn log argv tty in (r, spawned argv marked tty r ∷ log)

  abbrev pub wait : Option ℕ → Bool → Run (Option (ℕ × Option ℕ))
  wait pid block log = let r = o.wait log pid block in (r, waited pid block r ∷ log)

  abbrev pub exec : Bytes → List Bytes → Run Bool
  exec path argv log = let r = o.exec log path argv in (r, execed path argv r ∷ log)

  abbrev pub probe_roots : Run (Option (List Candidate))
  probe_roots log = let r = o.probe_roots log in (r, probed r ∷ log)

  abbrev pub arm_fastboot : Run Bool
  arm_fastboot log = let r = o.arm_fastboot log in (r, armed r ∷ log)

  abbrev pub now : Run (Option ℕ)
  now log = let r = o.now log in (r, asked_time r ∷ log)

  abbrev pub pet : Run Bool
  pet log = let r = o.pet log in (r, petted r ∷ log)

  abbrev pub copy : Run Bool
  copy log = let r = o.copy log in (r, copied r ∷ log)
