-- ===== src/RebootFastboot/Lk.antt =====
-- Main of rebootfastboot.go against what LK promises to do on the way up. LK's boot_mode_select is a
-- parameter; its laws are the order of tests that the package's comment states. The end of an
-- installation (rebootToFastboot of installer/gotools/internal/installd/installd.go) against the same.
use dc_1_pmos.Base.{
  ℕ, ◌+◌, ◌≡◌, ◌≢◌, sym, ap, ◌∙◌, subst, Bool, true, false, ◌||◌, [], some, Bytes, codes, ◌==◌, ok,
  Option-cases, inl, inr, arith,
}
use dc_1_pmos.RebootFastboot.{
  Tablet, System, base_of, nibble, env_or, arm_nibble, boot_mode_fastboot, wdt_base, wdt_non_rst2,
}
use dc_1_pmos.RebootFastboot.Steps.{diverts}
use dc_1_pmos.RebootFastboot.Command.{Flags, chosen_misc, main, restart_armed, reboot_to_fastboot}
use dc_1_pmos.RebootFastboot.Reaches.{succeeded, mem_dev, IsNoted, main-IsReady, arm_nibble-IsNoted}

-- the modes that LK starts
pub data Mode : Type 0 where
  of_preloader : ℕ → Mode
  recovery fastboot factory boot_menu normal : Mode

-- What LK reads: the mode of the preloader, the register, the misc partition and the keys.
pub record BootInputs : Type 0 where
  pub preloader : ℕ
  pub register : ℕ
  pub misc : Bytes
  pub keys : ℕ → Bool

unfoldable pub is_fixed : ℕ → Bool
is_fixed preloader = preloader == 1 || preloader == 4 || preloader == 7

-- The tests 1 to 5 of boot_mode_select, each of which returns.
pub record SelectsInOrder (select : BootInputs → Mode) : Type 0 where
  pub by_preloader :
      (i : BootInputs) → is_fixed i.preloader ≡ true → select i ≡ Mode.of_preloader i.preloader
  pub by_latch :
      (i : BootInputs)
      → is_fixed i.preloader ≡ false
      → nibble i.register ≡ 2
      → select i ≡ Mode.recovery
  pub by_command :
      (i : BootInputs)
      → is_fixed i.preloader ≡ false
      → nibble i.register ≢ 2
      → diverts i.misc ≡ true
      → select i ≡ Mode.recovery
  pub by_note :
      (i : BootInputs)
      → is_fixed i.preloader ≡ false
      → diverts i.misc ≡ false
      → nibble i.register ≡ boot_mode_fastboot
      → select i ≡ Mode.fastboot

-- What LK finds of a tablet, with the preloader's mode and the keys.
unfoldable pub inputs_of : Tablet → Bytes → ℕ → (ℕ → Bool) → BootInputs
inputs_of t misc preloader keys = record {
  preloader = preloader;
  register = t.word (codes "/dev/mem") (wdt_base + wdt_non_rst2);
  misc = t.disk misc;
  keys = keys;
}

-- no test hook in the environment
pub record IsPlain (s : System) : Type 0 where
  pub no_device : s.env (codes "DC1_MEMDEV") ≡ []
  pub no_base : s.env (codes "DC1_MEMBASE") ≡ []

noted_register :
    (s : System) (t : Tablet)
    → IsPlain s
    → IsNoted s t
    → nibble (t.word (codes "/dev/mem") (wdt_base + wdt_non_rst2)) ≡ boot_mode_fastboot
unfolding mem_dev env_or base_of
noted_register s t plain noted =
    let at_base : some wdt_base ≡ some noted.base = sym (ap base_of plain.no_base) ∙ noted.mapped in
    let base : noted.base ≡ wdt_base = cc in
    let file : mem_dev s ≡ codes "/dev/mem" = rw plain.no_device in
    subst (λ (f : Bytes). nibble (t.word f (wdt_base + wdt_non_rst2)) ≡ boot_mode_fastboot) file
      (subst (λ (b : ℕ). nibble (t.word (mem_dev s) (b + wdt_non_rst2)) ≡ boot_mode_fastboot) base
        noted.noted)

-- On a tablet without test hooks, where Main ends without an error and was not asked for a dry run, and
-- the misc partition was named or found, LK goes on to start fastboot from what Main leaves, unless
-- the preloader's mode is 1, 4 or 7: whatever the system answered on the way, whatever the partition
-- and the register held, and whatever keys are held. LK is any function that tests in the documented order.
pub main-fastboot :
    (select : BootInputs → Mode) (lk : SelectsInOrder select) (s : System) (f : Flags) (t : Tablet)
    (misc : Bytes) (preloader : ℕ) (keys : ℕ → Bool)
    → IsPlain s
    → chosen_misc s f ≡ ok misc
    → f.dry_run ≡ false
    → succeeded (main s (some f) t).ending ≡ true
    → is_fixed preloader ≡ false
    → select (inputs_of (main s (some f) t).tablet misc preloader keys) ≡ Mode.fastboot
unfolding inputs_of
main-fastboot select lk s f t misc preloader keys plain chosen real success free =
    let ready = main-IsReady s f t real success in
    lk.by_note _ free (ready.clear misc chosen) (noted_register s _ plain ready.noted)

-- rebootToFastboot of the installation server does not clear the misc partition: where a command there
-- diverts LK and the restart is issued, LK starts recovery instead of fastboot, unless the preloader's
-- mode is 1, 4 or 7.
pub reboot_to_fastboot-recovery :
    (select : BootInputs → Mode) (lk : SelectsInOrder select) (s : System) (t : Tablet)
    (misc : Bytes) (preloader : ℕ) (keys : ℕ → Bool)
    → IsPlain s
    → diverts (t.disk misc) ≡ true
    → (reboot_to_fastboot s t).0 ≡ true
    → is_fixed preloader ≡ false
    → select (inputs_of (reboot_to_fastboot s t).1 misc preloader keys) ≡ Mode.recovery
unfolding inputs_of reboot_to_fastboot restart_armed
reboot_to_fastboot-recovery select lk s t misc preloader keys plain armed success free =
    elim (Option-cases (arm_nibble s false t).failed) [
      | inr (e, bad) ↦ absurd (ground arith)
      | inl good ↦
          let (noted, disks) = arm_nibble-IsNoted s t good in
          let three = noted_register s (arm_nibble s false t).tablet plain noted in
          rw good
            (lk.by_command _ free (λ two. absurd (omega (arith, two, three))) (rw disks armed))
    ]
