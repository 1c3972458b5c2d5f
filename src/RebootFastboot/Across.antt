-- ===== src/RebootFastboot/Across.antt =====
-- How what holds of the tablet is carried through Main of rebootfastboot.go.
use dc_1_pmos.Base.{
  ◌≡◌, refl, sym, subst, ◌||◌, some, Bytes, Result, ok, err, Option-cases, if_both, inl, inr,
}
use dc_1_pmos.RebootFastboot.{
  Tablet, System, MiscError, BcbError, ArmError, Step, disarm_bcb, arm_nibble,
}
use dc_1_pmos.RebootFastboot.Reaches.{reboot_tablet}
use dc_1_pmos.RebootFastboot.Command.{
  Flags, Outcome, after_arming, arm_and_reboot, after_disarming, disarm_then_arm, chosen_misc,
  may_run, main,
}

after_arming_tablet :
    (s : System) (f : Flags) (r : Step ArmError) → (after_arming s f r).tablet ≡ r.tablet
unfolding after_arming
after_arming_tablet s f r = elim (Option-cases r.failed) [
  | inr (e, bad) ↦ rw bad refl
  | inl good ↦ rw good (
      if_both (λ (o : Outcome). o.tablet ≡ r.tablet) (f.dry_run || f.no_reboot) refl
        (reboot_tablet s f r.tablet))
]

-- What holds of the tablet before, behind DisarmBCB and across ArmNibble holds behind Main.
module _ (Q : Tablet → Type 0) (s : System) (f : Flags) where
  unfoldable pub Across : Type 0
  Across = (t : Tablet) → Q t → Q (arm_nibble s f.dry_run t).tablet

  across_arming : Across → (t : Tablet) → Q t → Q (arm_and_reboot s f t).tablet
  unfolding arm_and_reboot Across
  across_arming across t q = subst Q (sym (after_arming_tablet s f _)) (across t q)

  across_disarming : Across → (r : Step BcbError) → Q r.tablet → Q (after_disarming s f r).tablet
  unfolding after_disarming
  across_disarming across r q = elim (Option-cases r.failed) [
    | inr (e, bad) ↦ rw bad q
    | inl good ↦ rw good (across_arming across r.tablet q)
  ]

  across_both :
      Across
      → (t : Tablet) (r : Result MiscError Bytes) → Q t
      → ((misc : Bytes) → r ≡ ok misc → Q (disarm_bcb s misc f.dry_run t).tablet)
      → Q (disarm_then_arm s f t r).tablet
  unfolding disarm_then_arm
  across_both across t (err e) q h = across_arming across t q
  across_both across t (ok misc) q h = across_disarming across _ (h misc refl)

  pub across_main :
      Across
      → (t : Tablet) → Q t
      → ((misc : Bytes) → chosen_misc s f ≡ ok misc → Q (disarm_bcb s misc f.dry_run t).tablet)
      → Q (main s (some f) t).tablet
  unfolding main
  across_main across t q h =
      if_both (λ (o : Outcome). Q o.tablet) (may_run s f) (across_both across t _ q h) q
