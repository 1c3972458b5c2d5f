-- ===== src/InstallerInit/Ops.antt =====
-- The interface Ops of installer/gotools/internal/installerinit/ops.go. Each call is an event with what
-- it returned, the log lists the events, newest first, and the machine, a parameter, answers every call
-- as it likes, by the log so far and the call. The texts of errors are left out.
use dc_1_pmos.Base.{ℕ, Bool, List, ◌∷◌, Option, Bytes}

-- what a step of the display gate is for
pub data Why : Type 0 where
  skip_drm_client bind_gce poke_gce gce_bound dsi_there quiet_console power_panel release_probe
        poke_panel card_there :
      Why

pub data GadgetError : Type 0 where
  no_configfs no_udc_class no_udc_bound : GadgetError

pub data GateError : Type 0 where
  no_panel_driver no_surface : GateError
  step_failed : Why → GateError

pub data Message : Type 0 where
  entered base_mounted no_status no_second_stage spawn_failed acquired diagnosed : Message
  gadget_retry : GadgetError → Message
  no_display : GateError → Message
  skipped : Why → Message
  node_failed : Message
  bound_udc : Bytes → Message
  at_tick : ℕ → Message

-- The calls that report success or an error, that a path is there, or that the lock was taken; the
-- lock is the one of the dialogs.
pub data Call : Type 0 where
  make_dir : Bytes → Call
  mount : Bytes → Bytes → Bytes → Bytes → Call
  write_file create_file symlink : Bytes → Bytes → Call
  exists grab_tty : Bytes → Call
  wait_for : Bytes → ℕ → Call
  open_kmsg display try_lock blit : Call
  spawn : List Bytes → Call

pub data Event : Type 0 where
  did : Call → Bool → Event
  said : Message → Event
  read_file : Bytes → Option Bytes → Event
  painted : List Bytes → ℕ → Option ℕ → Event
  serving_dialogs reaped : Event
  slept : ℕ → Event

abbrev pub Log : Type 0
Log = List Event

pub record Machine : Type 0 where
  pub answer : Log → Call → Bool
  pub contents : Log → Bytes → Option Bytes

-- A computation that extends the log.
abbrev pub Run {ℓ} : Type ℓ → Type ℓ
Run A = Log → A × Log

module _ {ℓ κ} {A : Type ℓ} {B : Type κ} where
  infixl 5 ◌>>=◌ ◌>>◌
  unfoldable pub ◌>>=◌ : Run A → (A → Run B) → Run B
  ◌>>=◌ first rest log = let step = first log in rest step.0 step.1

  unfoldable pub ◌>>◌ : Run A → Run B → Run B
  ◌>>◌ first rest log = rest (first log).1

abbrev pub return {ℓ} : {A : Type ℓ} → A → Run A
return a log = (a, log)

abbrev pub Done : Type 0
Done = Unit {0}

abbrev pub note : Event → Run Done
note e log = (tt, e ∷ log)

module _ (m : Machine) where
  abbrev pub call : Call → Run Bool
  call c log = let r = m.answer log c in (r, did c r ∷ log)

  abbrev pub read : Bytes → Run (Option Bytes)
  read path log = let r = m.contents log path in (r, read_file path r ∷ log)
