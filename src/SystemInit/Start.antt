-- ===== src/SystemInit/Start.antt =====
-- Main of installer/gotools/internal/systeminit/systeminit.go with ParseArgs, selfPath, initAllowed and
-- helperAllowed of decide.go. The flags are taken as parsed; what is printed is left out.
use dc_1_pmos.Base.{
  ℕ, Bool, not, ◌&&◌, ◌||◌, Option, none, some, if◌then◌else◌, Bytes, codes, bytes_equal, length,
  ◌==◌, Result, ok, err,
}
use dc_1_pmos.SystemInit.Ops.{Machine, Run, Done, return, open_kmsg}
use dc_1_pmos.SystemInit.Rescue.{Role, watchdog, kmsg, shell, role_name, Config, Ending, exited}
use dc_1_pmos.SystemInit.Handoff.{boot}
use dc_1_pmos.SystemInit.Watchdog.{run_helper}

pub record Flags : Type 0 where
  pub helper : Bytes
  pub tty : Bytes
  pub dry_run : Bool
  pub once : Bool

-- what the system tells the process about itself: its numbers, the mark in its environment, its path
pub record Process : Type 0 where
  pub pid : ℕ
  pub ppid : ℕ
  pub marker : Bytes
  pub exe : Option Bytes

pub data ArgsError : Type 0 where
  shell_needs_tty stray_tty : ArgsError
  unknown_helper : Bytes → ArgsError

unfoldable pub names : Flags → Role → Bool
names f role = bytes_equal f.helper (role_name role)

-- the switch over the role
unfoldable pub check_helper : Flags → Result ArgsError Done
unfolding names
check_helper f =
    if length f.helper == 0 || (names f watchdog || names f kmsg)
    then ok tt
    else if names f shell
    then (if length f.tty == 0 then err shell_needs_tty else ok tt)
    else err (unknown_helper f.helper)

unfoldable pub check_tty : Flags → Result ArgsError Done
unfolding names
check_tty f = if not (length f.tty == 0) && not (names f shell) then err stray_tty else ok tt

-- ParseArgs behind the flag parser
unfoldable pub parse_args : Flags → Result ArgsError Done
parse_args f = elim (check_helper f) [ err e ↦ err e | ok u ↦ check_tty f ]

unfoldable pub self_path : Option Bytes → Bytes
self_path none = codes "/bin/dc1tools"
self_path (some exe) = if length exe == 0 then codes "/bin/dc1tools" else exe

unfoldable pub init_allowed : ℕ → Bool
init_allowed pid = pid == 1

unfoldable pub helper_allowed : ℕ → Bytes → Bool
helper_allowed ppid marker = ppid == 1 && bytes_equal marker (codes "1")

-- the switch of runHelper
unfoldable pub role_of : Flags → Option Role
unfolding names
role_of f =
    if names f watchdog
    then some watchdog
    else if names f kmsg
    then some kmsg
    else if names f shell
    then some shell
    else none

abbrev pub config_of : Process → Flags → Config
config_of p f = record { once = f.once; self = self_path p.exe }

module _ (o : Machine) (p : Process) (f : Flags) (passes rounds : ℕ) where
  -- runHelper by the role's name
  unfoldable pub run_named : Option Role → Run Ending
  run_named none log = (exited 2, (open_kmsg log).1)
  run_named (some role) log = run_helper o (config_of p f) rounds f.tty role log

  -- Main behind ParseArgs
  unfoldable pub start : Run Ending
  unfolding init_allowed helper_allowed role_of
  start =
      if f.dry_run
      then return (exited 0)
      else if length f.helper == 0 && not (init_allowed p.pid)
      then return (exited 1)
      else if not (length f.helper == 0) && not (helper_allowed p.ppid p.marker)
      then return (exited 1)
      else if not (length f.helper == 0)
      then run_named (role_of f)
      else boot o (config_of p f) passes

  unfoldable pub main : Run Ending
  unfolding parse_args
  main = elim (parse_args f) [ err e ↦ return (exited 2) | ok u ↦ start ]
