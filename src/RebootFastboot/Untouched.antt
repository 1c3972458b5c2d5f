-- ===== src/RebootFastboot/Untouched.antt =====
-- What Main of rebootfastboot.go leaves alone.
use dc_1_pmos.Base.{
  ℕ, ◌/◌, ◌≡◌, refl, sym, ap, ◌∙◌, subst, true, false, some, Bytes, Result, ok, err, Option-cases,
  Bool-cases, if_both, ◌⊎◌, inl, inr,
}
use dc_1_pmos.RebootFastboot.{Tablet, System, MiscError, BcbError, ArmError, Step, arm_nibble}
use dc_1_pmos.RebootFastboot.Steps.{diverts}
use dc_1_pmos.RebootFastboot.Reaches.{leaves}
use dc_1_pmos.RebootFastboot.Across.{Across, across_main}
use dc_1_pmos.RebootFastboot.Keeps.{
  disarm_bcb_dry, arm_at_dry, disarm_bcb-DiskKept, disarm_bcb-WordKept, HighBitsKept,
  arm_at-ArmDisk, arm_at-ArmKept,
}
use dc_1_pmos.RebootFastboot.Command.{
  Flags, Outcome, after_arming, arm_and_reboot, after_disarming, disarm_then_arm, chosen_misc,
  may_run, main,
}

abbrev Stays : Outcome → Type 0
Stays o = leaves o.ending ≡ false

module _ (s : System) (f : Flags) (dry : f.dry_run ≡ true) where
  after_arming-Stays : (r : Step ArmError) → Stays (after_arming s f r)
  unfolding after_arming leaves
  after_arming-Stays r = elim (Option-cases r.failed) [
    | inr (e, bad) ↦ rw bad refl
    | inl good ↦ rw (good, dry) refl
  ]

  after_disarming-Stays : (r : Step BcbError) → Stays (after_disarming s f r)
  unfolding after_disarming arm_and_reboot leaves
  after_disarming-Stays r = elim (Option-cases r.failed) [
    | inr (e, bad) ↦ rw bad refl
    | inl good ↦ rw good (after_arming-Stays _)
  ]

  main-Stays : (t : Tablet) → Stays (main s (some f) t)
  unfolding main leaves disarm_then_arm arm_and_reboot
  main-Stays t = if_both Stays (may_run s f) (chosen (chosen_misc s f)) refl
    where
      chosen : (r : Result MiscError Bytes) → Stays (disarm_then_arm s f t r)
      chosen (err e) = after_arming-Stays _
      chosen (ok misc) = after_disarming-Stays _

-- A dry run, whatever the system answers, changes no disk and no word of memory, and never leaves
-- Linux: it exits.
pub main_dry :
    (s : System) (f : Flags) (t : Tablet)
    → f.dry_run ≡ true
    → ((main s (some f) t).tablet ≡ t) × (leaves (main s (some f) t).ending ≡ false)
unfolding Across arm_nibble
main_dry s f t dry = (
  across_main (λ (t' : Tablet). t' ≡ t) s f
      (λ t' same. rw (dry, arm_nibble) (arm_at_dry s _ t' _ ∙ same)) t refl
      (λ misc chosen. rw dry (disarm_bcb_dry s misc t)),
  main-Stays s f dry t,
)

spared_disk :
    (s : System) (f : Flags) (t : Tablet) (d : Bytes)
    → ((main s (some f) t).tablet.disk d ≡ t.disk d)
      ⊎ ((chosen_misc s f ≡ ok d) × (diverts (t.disk d) ≡ true))
unfolding Across arm_nibble
spared_disk s f t =
    across_main Kept s f
      (λ t' kept d.
        subst (λ (disk : Bytes → Bytes). Spared disk d) (sym (arm_at-ArmDisk s _ f.dry_run t' _))
          (kept d))
      t (λ d. inl refl)
      (λ misc chosen d. spared misc chosen d (disarm_bcb-DiskKept s misc f.dry_run t d))
  where
    Spared : (Bytes → Bytes) → Bytes → Type 0
    Spared disk d = (disk d ≡ t.disk d) ⊎ ((chosen_misc s f ≡ ok d) × (diverts (t.disk d) ≡ true))

    Kept : Tablet → Type 0
    Kept t' = (d : Bytes) → Spared t'.disk d

    spared :
        (misc : Bytes)
        → chosen_misc s f ≡ ok misc
        → (d : Bytes) {x : Bytes} → (x ≡ t.disk d) ⊎ ((d ≡ misc) × (diverts (t.disk d) ≡ true))
        → (x ≡ t.disk d) ⊎ ((chosen_misc s f ≡ ok d) × (diverts (t.disk d) ≡ true))
    spared misc chosen d (inl same) = inl same
    spared misc chosen d (inr (here, armed)) =
        inr (chosen ∙ ap (λ (b : Bytes). ok b) (sym here), armed)

-- Whatever the system answers, the only disk that may hold something else behind Main is the misc
-- partition that was named or found, and that only if the run was not dry and the partition held one of
-- the two commands that divert LK.
pub main-disk :
    (s : System) (f : Flags) (t : Tablet) (d : Bytes)
    → ((main s (some f) t).tablet.disk d ≡ t.disk d)
      ⊎ ((f.dry_run ≡ false) × (chosen_misc s f ≡ ok d) × (diverts (t.disk d) ≡ true))
main-disk s f t d = elim (Bool-cases f.dry_run) [
  | inl dry ↦ inl (ap (λ (t' : Tablet). t'.disk d) (main_dry s f t dry).0)
  | inr real ↦ elim (spared_disk s f t d) [
    | inl same ↦ inl same
    | inr (chosen, armed) ↦ inr (real, chosen, armed)
  ]
]

-- Where the register holds what is stored to it, no word of memory differs behind Main in more than its
-- low four bits from the word before, whatever else the system answers.
pub main-HighBitsKept :
    (s : System) (f : Flags) (t : Tablet)
    → ((old value : ℕ) → s.takes old value ≡ value)
    → HighBitsKept t (main s (some f) t).tablet
unfolding Across arm_nibble HighBitsKept
main-HighBitsKept s f t takes =
    across_main (HighBitsKept t) s f
      (λ t' kept file address.
        arm_at-ArmKept s takes _ f.dry_run t' _ file address ∙ kept file address)
      t (λ file address. refl)
      (λ misc chosen file address.
        ap (λ (w : Bytes → ℕ → ℕ). w file address / 16) (disarm_bcb-WordKept s misc f.dry_run t))
