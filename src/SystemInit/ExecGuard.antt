-- ===== src/SystemInit/ExecGuard.antt =====
-- When systeminit.go may execute a program in the init's own place.
use dc_1_pmos.Base.{◌≡◌, true, ◌∷◌, ◌++◌, Bytes, codes}
use dc_1_pmos.SystemInit.Ops.{Event, said, moved, execed, switching, Log, Run}
use dc_1_pmos.SystemInit.Rescue.{busybox_path, root_mount}
use dc_1_pmos.SystemInit.Handoff.{switch_argv}
use dc_1_pmos.SystemInit.Emits.{Emits, Emits-weaken, GuardedBy, keeps_guards}
use dc_1_pmos.SystemInit.Early.{IsEarly}
use dc_1_pmos.SystemInit.Verified.{Found, Checked}

-- Behind the events in `log`, switch_root may be executed: findRoot found one root, mountRoot mounted
-- and checked the same device, and then the kernel's file systems were moved, all three.
pub record Ready (log : Log) : Type 0 where
  pub dev : Bytes
  pub at_found : Log
  pub since_found : Log
  pub before : Log
  pub found : Found dev at_found
  pub follows : before ≡ since_found ++ at_found
  pub root_checked : Checked dev before
  pub all_moved :
      log
      ≡ moved (codes "/sys") (root_mount ++ codes "/sys") true
        ∷ moved (codes "/proc") (root_mount ++ codes "/proc") true
        ∷ moved (codes "/dev") (root_mount ++ codes "/dev") true
        ∷ said (switching dev)
        ∷ before

abbrev pub ExecGuard : Event → Log → Type 0
ExecGuard (execed path argv r) log = (path ≡ busybox_path) × (argv ≡ switch_argv) × Ready log
ExecGuard _ log = Unit

-- Every program that took the init's place did so in a log that is ready for it.
unfoldable pub IsGuarded : Log → Type 0
IsGuarded log = GuardedBy ExecGuard log

-- no program in the init's place
abbrev pub IsNoExec : Event → Type 0
IsNoExec (execed path argv r) = ⊥
IsNoExec _ = Unit

pub early-IsNoExec : (e : Event) → IsEarly e → IsNoExec e
early-IsNoExec (execed path argv r) h = h
early-IsNoExec (moved old new r) h = absurd h
early-IsNoExec _ h = tt

no_exec-guard : (e : Event) (log : Log) → IsNoExec e → ExecGuard e log
no_exec-guard (execed path argv r) log h = absurd h
no_exec-guard _ log h = tt

pub keeps_guard {ℓ} :
    {A : Type ℓ} (r : Run A) (log : Log) → Emits IsNoExec r → IsGuarded log → IsGuarded (r log).1
unfolding IsGuarded
keeps_guard r log = keeps_guards no_exec-guard r log

pub early_keeps {ℓ} :
    {A : Type ℓ} (r : Run A) (log : Log) → Emits IsEarly r → IsGuarded log → IsGuarded (r log).1
early_keeps r log early = keeps_guard r log (Emits-weaken early-IsNoExec r early)
