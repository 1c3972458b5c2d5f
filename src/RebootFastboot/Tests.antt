-- ===== src/RebootFastboot/Tests.antt =====
-- rebootfastboot.go on a small tablet.
use dc_1_pmos.Base.{
  ◌≡◌, refl, Bool, true, false, [], ◌∷◌, ◌++◌, some, if◌then◌else◌, Bytes, codes, bytes_equal,
  replicate, ◌⊎◌, inl, inr, ok, ◌==◌, arith, Bool-cases, ==_iff,
}
use dc_1_pmos.Partition.{Sysfs}
use dc_1_pmos.RebootFastboot.{
  Tablet, System, nibble, boot_mode_fastboot, disarm_bcb, disarm_read, read_command, disarm_command,
  clear_bcb, check_clear, arm_nibble, arm_at, arm_mapping, arm_word, arm_stored, base_of, env_or,
  is_armed, clen, printable, with_fastboot, set_disk, set_word,
}
use dc_1_pmos.RebootFastboot.Steps.{diverts, command_in}
use dc_1_pmos.RebootFastboot.Reaches.{succeeded}
use dc_1_pmos.RebootFastboot.Keeps.{HighBitsKept}
use dc_1_pmos.RebootFastboot.Untouched.{main-disk, main-HighBitsKept}
use dc_1_pmos.RebootFastboot.Command.{
  Flags, main, chosen_misc, may_run, disarm_then_arm, after_disarming, arm_and_reboot, after_arming,
  reboot, restart, restart_armed, reboot_to_fastboot,
}
use dc_1_pmos.RebootFastboot.Lk.{
  Mode, BootInputs, SelectsInOrder, IsPlain, is_fixed, inputs_of, main-fastboot,
  reboot_to_fastboot-recovery,
}

-- a function that tests in the documented order
select_by : Bool → Bool → Bool → Bool → BootInputs → Mode
select_by true latch command note i = Mode.of_preloader i.preloader
select_by false true command note i = Mode.recovery
select_by false false true note i = Mode.recovery
select_by false false false true i = Mode.fastboot
select_by false false false false i =
    if i.keys 1 then Mode.factory else if i.keys 6 then Mode.boot_menu else Mode.normal

select : BootInputs → Mode
select i =
    select_by (is_fixed i.preloader) (nibble i.register == 2) (diverts i.misc)
      (nibble i.register == boot_mode_fastboot) i

select-SelectsInOrder : SelectsInOrder select
unfolding select select_by
select-SelectsInOrder = record {
  by_preloader = λ i fixed. rw fixed refl;
  by_latch = λ i free two. rw (free, (==_iff (nibble i.register) 2).1 two) refl;
  by_command = λ i free other armed. elim (Bool-cases (nibble i.register == 2)) [
    | inl two ↦ absurd (other ((==_iff (nibble i.register) 2).0 two))
    | inr e ↦ rw (free, e, armed) refl
  ];
  by_note = λ i free clear three. elim (Bool-cases (nibble i.register == 2)) [
    | inl two ↦ absurd (omega (arith, three, (==_iff (nibble i.register) 2).0 two))
    | inr e ↦ rw (free, e, clear, (==_iff (nibble i.register) 3).1 three) refl
  ];
}

abbrev sys : Sysfs
sys = record {
  uevents =
      (codes "sda", some (codes "DEVTYPE=disk\n"))
      ∷ (codes "sdc1", some (codes "MAJOR=8\nPARTNAME=misc\n"))
      ∷ [];
  size_file = λ dev. some (codes "1024\n");
}

-- a system where every call succeeds, devices and registers hold what is stored
abbrev system : System
system = record {
  env = λ name. [];
  block_class = λ dir. some sys;
  as_root = true;
  opens = λ file writing. true;
  reads = λ dev. true;
  reads_again = λ dev. true;
  syncs = λ dev. true;
  stores = λ dev old new. (new, true);
  maps = λ file base. true;
  takes = λ old value. value;
  execs_reboot = false;
  restarts = true;
}

abbrev flags : Flags
flags = record { dry_run = false; no_reboot = false; force = true; misc = codes "/dev/sdc1" }

abbrev dry_flags : Flags
dry_flags = record { dry_run = true; no_reboot = false; force = true; misc = [] }

abbrev armed_misc : Bytes
armed_misc = codes "boot-recovery" ++ replicate 51 0

abbrev tablet : Tablet
tablet = record { disk = λ dev. armed_misc; word = λ file address. 240 }

free : is_fixed 0 ≡ false
unfolding is_fixed
free = refl

plain : IsPlain system
plain = record { no_device = refl; no_base = refl }

chosen : chosen_misc system flags ≡ ok (codes "/dev/sdc1")
unfolding chosen_misc
chosen = refl

ends_well : succeeded (main system (some flags) tablet).ending ≡ true
unfolding main may_run chosen_misc disarm_then_arm disarm_bcb disarm_read read_command
    disarm_command clear_bcb check_clear after_disarming arm_and_reboot arm_nibble arm_at
    arm_mapping arm_word arm_stored after_arming reboot restart succeeded base_of env_or is_armed
    clen bytes_equal printable with_fastboot set_disk set_word
ends_well = refl

main-fastboot_example :
    select (inputs_of (main system (some flags) tablet).tablet (codes "/dev/sdc1") 0 (λ key. false))
    ≡ Mode.fastboot
main-fastboot_example =
    main-fastboot select select-SelectsInOrder system flags tablet (codes "/dev/sdc1") 0
      (λ key. false) plain chosen refl ends_well free

is_diverted : diverts armed_misc ≡ true
unfolding diverts command_in clen is_armed bytes_equal
is_diverted = refl

is_restarted : (reboot_to_fastboot system tablet).0 ≡ true
unfolding reboot_to_fastboot restart_armed arm_nibble arm_at arm_mapping arm_word arm_stored base_of
    env_or with_fastboot
is_restarted = refl

reboot_to_fastboot-recovery_example :
    select (inputs_of (reboot_to_fastboot system tablet).1 (codes "/dev/sdc1") 0 (λ key. false))
    ≡ Mode.recovery
reboot_to_fastboot-recovery_example =
    reboot_to_fastboot-recovery select select-SelectsInOrder system tablet (codes "/dev/sdc1") 0
      (λ key. false) plain is_diverted is_restarted free

main-disk_example :
    ((main system (some flags) tablet).tablet.disk (codes "/dev/sdc1") ≡ armed_misc)
    ⊎ ((flags.dry_run ≡ false)
        × (chosen_misc system flags ≡ ok (codes "/dev/sdc1"))
        × (diverts armed_misc ≡ true))
main-disk_example = main-disk system flags tablet (codes "/dev/sdc1")

main-HighBitsKept_example : HighBitsKept tablet (main system (some flags) tablet).tablet
main-HighBitsKept_example = main-HighBitsKept system flags tablet (λ old value. refl)
