-- ===== src/RebootFastboot/Command.antt =====
-- Main of rebootfastboot.go behind its flags, and rebootToFastboot of installer/gotools/internal/
-- installd/installd.go, which uses the same register write.
use dc_1_pmos.Base.{
  ℕ, Bool, false, not, ◌&&◌, ◌||◌, List, [], ◌∷◌, ◌++◌, Option, none, some, if◌then◌else◌, Bytes,
  codes, length, ◌==◌, Result, ok, err,
}
use dc_1_pmos.RebootFastboot.{
  Tablet, System, MiscError, BcbError, ArmError, Notice, Step, resolve_misc, misc_is, rebooting,
  must_be_root, reboot_failed, unchecked, bcb_failed, arm_failed, disarm_bcb, arm_nibble,
}

pub record Flags : Type 0 where
  pub dry_run : Bool
  pub no_reboot : Bool
  pub force : Bool
  pub misc : Bytes

-- How the program ends: it exits, it becomes /sbin/reboot, or the tablet restarts.
pub data RunEnd : Type 0 where
  exited : ℕ → RunEnd
  became_reboot restarted : RunEnd

pub record Outcome : Type 0 where
  pub ending : RunEnd
  pub tablet : Tablet
  pub said : List Notice

abbrev pub ends : RunEnd → List Notice → Tablet → Outcome
ends e ms t = record { ending = e; tablet = t; said = ms }

abbrev pub having_said : List Notice → Outcome → Outcome
having_said ms r = record r { said = ms ++ r.said }

unfoldable pub restart : System → Tablet → Outcome
restart s t = if s.restarts then ends restarted [] t else ends (exited 1) (reboot_failed ∷ []) t

unfoldable pub reboot : System → Flags → Tablet → Outcome
reboot s f t =
    having_said (rebooting ∷ [])
      (if not f.force && s.execs_reboot then ends became_reboot [] t else restart s t)

unfoldable pub after_arming : System → Flags → Step ArmError → Outcome
after_arming s f r = elim r.failed [
  | some e ↦ ends (exited 1) (r.said ++ (arm_failed e ∷ [])) r.tablet
  | none ↦
      having_said r.said
        (if f.dry_run || f.no_reboot then ends (exited 0) [] r.tablet else reboot s f r.tablet)
]

-- Step 2
unfoldable pub arm_and_reboot : System → Flags → Tablet → Outcome
arm_and_reboot s f t = after_arming s f (arm_nibble s f.dry_run t)

unfoldable pub after_disarming : System → Flags → Step BcbError → Outcome
after_disarming s f r = elim r.failed [
  | some e ↦ ends (exited 1) (r.said ++ (bcb_failed e ∷ [])) r.tablet
  | none ↦ having_said r.said (arm_and_reboot s f r.tablet)
]

-- Step 1, for the misc partition of the flag or the one found
unfoldable pub disarm_then_arm : System → Flags → Tablet → Result MiscError Bytes → Outcome
disarm_then_arm s f t (err e) = having_said (unchecked e ∷ []) (arm_and_reboot s f t)
disarm_then_arm s f t (ok misc) =
    having_said (misc_is misc ∷ []) (after_disarming s f (disarm_bcb s misc f.dry_run t))

unfoldable pub chosen_misc : System → Flags → Result MiscError Bytes
chosen_misc s f = if length f.misc == 0 then resolve_misc s else ok f.misc

-- the check for root, which a redirected register file skips
unfoldable pub may_run : System → Flags → Bool
may_run s f = f.dry_run || s.as_root || not (length (s.env (codes "DC1_MEMDEV")) == 0)

unfoldable pub main : System → Option Flags → Tablet → Outcome
main s none t = ends (exited 2) [] t
main s (some f) t =
    if may_run s f
    then disarm_then_arm s f t (chosen_misc s f)
    else ends (exited 1) (must_be_root ∷ []) t

-- rebootToFastboot of installd.go, after which the server runs on if the restart fails
unfoldable pub restart_armed : System → Step ArmError → Bool × Tablet
restart_armed s r = elim r.failed [ some e ↦ (false, r.tablet) | none ↦ (s.restarts, r.tablet) ]

unfoldable pub reboot_to_fastboot : System → Tablet → Bool × Tablet
reboot_to_fastboot s t = restart_armed s (arm_nibble s false t)
