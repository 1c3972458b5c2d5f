-- ===== src/RebootFastboot/Reaches.antt =====
-- Where Main of rebootfastboot.go succeeds, the register holds the note and the misc partition diverts
-- LK no more: the lemmas step by step.
use dc_1_pmos.Base.{
  ℕ, zero, suc, ◌+◌, ◌≡◌, refl, subst, Bool, true, false, not, ◌&&◌, ◌||◌, none, some, Bytes, codes,
  Result, ok, err, Bool-cases, Option-cases, if_both, inl, inr, arith,
}
use dc_1_pmos.RebootFastboot.{
  Tablet, System, MiscError, ArmError, Step, env_or, base_of, nibble, disarm_bcb, arm_at,
  arm_nibble, boot_mode_fastboot, wdt_non_rst2,
}
use dc_1_pmos.RebootFastboot.Steps.{diverts, Clears, disarm_bcb-Clears, Arms, arm_at-Arms}
use dc_1_pmos.RebootFastboot.Command.{
  Flags, RunEnd, exited, became_reboot, restarted, Outcome, restart, reboot, after_arming,
  arm_and_reboot, after_disarming, disarm_then_arm, chosen_misc, may_run, main,
}

unfoldable pub mem_dev : System → Bytes
mem_dev s = env_or s (codes "DC1_MEMDEV") (codes "/dev/mem")

-- The register that the program maps holds the nibble of fastboot.
pub record IsNoted (s : System) (t : Tablet) : Type 0 where
  pub base : ℕ
  pub mapped : base_of (s.env (codes "DC1_MEMBASE")) ≡ some base
  pub noted : nibble (t.word (mem_dev s) (base + wdt_non_rst2)) ≡ boot_mode_fastboot

-- exit code 0, or no return
unfoldable pub succeeded : RunEnd → Bool
succeeded (exited zero) = true
succeeded (exited (suc n)) = false
succeeded became_reboot = true
succeeded restarted = true

-- The program did not return.
unfoldable pub leaves : RunEnd → Bool
leaves (exited n) = false
leaves became_reboot = true
leaves restarted = true

pub arm_nibble-IsNoted :
    (s : System) (t : Tablet)
    → (arm_nibble s false t).failed ≡ none
    → IsNoted s (arm_nibble s false t).tablet × ((arm_nibble s false t).tablet.disk ≡ t.disk)
unfolding arm_nibble arm_at Arms mem_dev
arm_nibble-IsNoted s t h = elim (Option-cases (base_of (s.env (codes "DC1_MEMBASE")))) [
  | inl bad ↦ absurd (ground arith)
  | inr (base, mapped) ↦
      let file = env_or s (codes "DC1_MEMDEV") (codes "/dev/mem") in
      let (noted, disks) = arm_at-Arms s file t base (rw mapped at h) in
      rw mapped (record { base = base; mapped = mapped; noted = noted }, disks)
]

pub reboot_tablet : (s : System) (f : Flags) (t : Tablet) → (reboot s f t).tablet ≡ t
unfolding reboot restart
reboot_tablet s f t =
    if_both (λ (o : Outcome). o.tablet ≡ t) (not f.force && s.execs_reboot) refl
      (if_both (λ (o : Outcome). o.tablet ≡ t) s.restarts refl refl)

after_arming-passed :
    (s : System) (f : Flags) (r : Step ArmError)
    → succeeded (after_arming s f r).ending ≡ true
    → (r.failed ≡ none) × ((after_arming s f r).tablet ≡ r.tablet)
unfolding after_arming succeeded
after_arming-passed s f r h = elim (Option-cases r.failed) [
  | inr (e, bad) ↦ absurd (ground arith)
  | inl good ↦ (
    good,
    rw good (
        if_both (λ (o : Outcome). o.tablet ≡ r.tablet) (f.dry_run || f.no_reboot) refl
          (reboot_tablet s f r.tablet)),
  )
]

arm_and_reboot-IsNoted :
    (s : System) (f : Flags) (t : Tablet)
    → f.dry_run ≡ false
    → succeeded (arm_and_reboot s f t).ending ≡ true
    → IsNoted s (arm_and_reboot s f t).tablet × ((arm_and_reboot s f t).tablet.disk ≡ t.disk)
unfolding arm_and_reboot
arm_and_reboot-IsNoted s f t real h =
    let (passed, same) = after_arming-passed s f (arm_nibble s f.dry_run t) h in
    let real_step : arm_nibble s f.dry_run t ≡ arm_nibble s false t = rw real in
    let (noted, disks) = arm_nibble-IsNoted s t (rw real_step at passed) in
    rw (same, real_step) (noted, disks)

after_disarming-IsNoted :
    (s : System) (f : Flags) (dev : Bytes) (t : Tablet)
    → f.dry_run ≡ false
    → succeeded (after_disarming s f (disarm_bcb s dev false t)).ending ≡ true
    → IsNoted s (after_disarming s f (disarm_bcb s dev false t)).tablet
      × (diverts ((after_disarming s f (disarm_bcb s dev false t)).tablet.disk dev) ≡ false)
unfolding after_disarming succeeded Clears
after_disarming-IsNoted s f dev t real h = elim (Option-cases (disarm_bcb s dev false t).failed) [
  | inr (e, bad) ↦ absurd (ground arith)
  | inl good ↦
      let clear = disarm_bcb-Clears s dev t good in
      let (noted, disks) =
        arm_and_reboot-IsNoted s f (disarm_bcb s dev false t).tablet real (rw good at h) in
      rw good (noted, rw disks clear)
]

-- What holds behind a successful run that was not dry.
pub record IsReady (s : System) (f : Flags) (t : Tablet) : Type 0 where
  pub noted : IsNoted s t
  pub clear : (misc : Bytes) → chosen_misc s f ≡ ok misc → diverts (t.disk misc) ≡ false

disarm_then_arm-IsReady :
    (s : System) (f : Flags) (t : Tablet) (r : Result MiscError Bytes)
    → chosen_misc s f ≡ r
    → f.dry_run ≡ false
    → succeeded (disarm_then_arm s f t r).ending ≡ true
    → IsReady s f (disarm_then_arm s f t r).tablet
unfolding disarm_then_arm
disarm_then_arm-IsReady s f t (err e) chosen real h = record {
  noted = (arm_and_reboot-IsNoted s f t real h).0;
  clear = λ misc other. absurd cc;
}
disarm_then_arm-IsReady s f t (ok misc) chosen real h =
    let step : disarm_bcb s misc f.dry_run t ≡ disarm_bcb s misc false t = rw real in
    let (noted, clear) = after_disarming-IsNoted s f misc t real (rw step at h) in
    rw step (record {
      noted = noted;
      clear = λ other same.
          let it : misc ≡ other = cc in
          subst
            (λ (d : Bytes).
              diverts ((after_disarming s f (disarm_bcb s misc false t)).tablet.disk d) ≡ false)
            it clear;
    })

pub main-IsReady :
    (s : System) (f : Flags) (t : Tablet)
    → f.dry_run ≡ false
    → succeeded (main s (some f) t).ending ≡ true
    → IsReady s f (main s (some f) t).tablet
unfolding main succeeded
main-IsReady s f t real h = elim (Bool-cases (may_run s f)) [
  | inr stops ↦ absurd (ground arith)
  | inl runs ↦ rw runs (disarm_then_arm-IsReady s f t (chosen_misc s f) refl real (rw runs at h))
]
