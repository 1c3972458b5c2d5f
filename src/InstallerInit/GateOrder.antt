-- ===== src/InstallerInit/GateOrder.antt =====
-- OpenGate of gate.go: where it returns no error, GCE was bound before the panel was powered and the
-- card's node is there.
use dc_1_pmos.Base.{
  ◌≡◌, refl, sym, subst, Bool, true, false, ◌&&◌, List, [], ◌∷◌, ◌++◌, Option, none, some,
  if◌then◌else◌, Bytes, codes, bytes_equal, ◌⊎◌, inl, inr, arith,
}
use dc_1_pmos.InstallerInit.Ops.{
  write_file, exists, wait_for, Event, did, said, Log, Machine, Run, ◌>>◌, return, note, GateError,
  skipped,
}
use dc_1_pmos.InstallerInit.Gate.{
  GateStep, stock_gce, mainline_gce, gce_driver_path, skip_step, bind_step, poke_gce_step,
  bound_step, dsi_step, quiet_step, power_step, release_step, poke_panel_step, card_step, gce_param,
  dsi_device, skip_client, gate_sequence, try_second, gce_node, is_there, perform, after_step,
  unless_there, run_gate, with_panel, open_gate, card_node, prod_seq, probe_stage, panel_params,
}
use dc_1_pmos.InstallerInit.Facts.{
  shows, shows_gce, shows_card, starts_second, any, is_panel, wants, Holds, Leads, Leads-bind,
  Leads-then, with_fact, note-Leads, call_met, call-Leads, call-Gains,
}

module _ (m : Machine) where
  abbrev started : List (Event → Bool)
  started = starts_second ∷ []

  abbrev bound : List (Event → Bool)
  bound = shows_gce ∷ started

  -- what holds behind OpenGate, by what it returns
  abbrev pub Opened : Option GateError → Log → Type 0
  Opened none = Holds (shows_card ∷ bound)
  Opened (some e) = Holds started

  -- One step: its test and its action add the same facts. `F true` holds behind it.
  module _ (s : GateStep) (ss : List GateStep) (F : Bool → List (Event → Bool))
      (test : Leads (Holds (F false)) (is_there m s.skip_if) (λ r. Holds (F r)))
      (act : Leads (Holds (F false)) (perform m s) (λ r. Holds (F r)))
      (rest : Leads (Holds (F true)) (run_gate m ss) Opened) where
    tested :
        ((r : Bool) → Leads (Holds (F r)) (after_step m s (run_gate m ss) r) Opened)
        → (r : Bool) → Leads (Holds (F r)) (unless_there m s (run_gate m ss) r) Opened
    unfolding unless_there
    tested after true = rest
    tested after false = Leads-bind (Holds (F false)) (λ r. Holds (F r)) Opened _ _ act after

    stepped :
        ((r : Bool) → Leads (Holds (F r)) (after_step m s (run_gate m ss) r) Opened)
        → Leads (Holds (F false)) (run_gate m (s ∷ ss)) Opened
    unfolding run_gate
    stepped after = Leads-bind (Holds (F false)) (λ r. Holds (F r)) Opened _ _ test (tested after)

    -- a step that must not fail
    strict-Opened :
        s.optional ≡ false
        → ((log : Log) → Holds (F false) log → Holds started log)
        → Leads (Holds (F false)) (run_gate m (s ∷ ss)) Opened
    unfolding after_step
    strict-Opened strict fail = stepped after
      where
        failed :
            (b : Bool) (x : Run (Option GateError)) (e : GateError)
            → b ≡ false
            → Leads (Holds (F false)) (if b then x else return (some e)) Opened
        failed true x e h = absurd cc
        failed false x e h = fail

        after : (r : Bool) → Leads (Holds (F r)) (after_step m s (run_gate m ss) r) Opened
        after true = rest
        after false = failed s.optional _ _ strict

    -- a step that may fail
    optional-Opened :
        s.optional ≡ true → F true ≡ F false → Leads (Holds (F false)) (run_gate m (s ∷ ss)) Opened
    unfolding after_step wants
    optional-Opened may same = stepped after
      where
        failed :
            (b : Bool) (x : Run (Option GateError))
            → b ≡ true
            → Leads
                (Holds (F false))
                (if b then note (said (skipped s.why)) >> run_gate m ss else x)
                Opened
        failed false x h = absurd cc
        failed true x h =
            Leads-then (Holds (F false)) (Holds (F true)) Opened _ _
              (subst (λ fs. Leads (Holds (F false)) (note (said (skipped s.why))) (λ a. Holds fs))
                (sym same) (note-Leads (F false) _ (λ log. refl)))
              rest

        after : (r : Bool) → Leads (Holds (F r)) (after_step m s (run_gate m ss) r) Opened
        after true = rest
        after false = failed s.optional _ may

  -- the facts that a step adds where it adds none, and where it adds one
  abbrev same_facts : List (Event → Bool) → Bool → List (Event → Bool)
  same_facts fs r = fs

  abbrev adds : List (Event → Bool) → (Event → Bool) → Bool → List (Event → Bool)
  adds fs f r = with_fact r fs f

  keep_started : (f : Event → Bool) (log : Log) → Holds (f ∷ started) log → Holds started log
  keep_started f log (ordered, (here, facts)) = (ordered, facts)

  panel_met : (log : Log) → Holds bound log → (any shows_gce log && any starts_second log) ≡ true
  panel_met log (ordered, (gce, (second, none_left))) = rw (gce, second) refl

  no_test : (fs : List (Event → Bool)) → Leads (Holds fs) (is_there m []) (λ r. Holds fs)
  unfolding is_there
  no_test fs log h = h

  -- a step without a test that adds nothing
  plain-Opened :
      (s : GateStep) (ss : List GateStep)
      → s.skip_if ≡ []
      → s.optional ≡ false
      → Leads (Holds bound) (perform m s) (λ r. Holds bound)
      → Leads (Holds bound) (run_gate m ss) Opened
      → Leads (Holds bound) (run_gate m (s ∷ ss)) Opened
  plain-Opened s ss bare strict act rest =
      strict-Opened s ss (same_facts bound)
        (subst (λ (p : Bytes). Leads (Holds bound) (is_there m p) (λ r. Holds bound)) (sym bare)
          (no_test bound))
        act rest strict (keep_started shows_gce)

  card-Opened : Leads (Holds bound) (run_gate m (card_step ∷ [])) Opened
  unfolding perform wants with_fact shows_card shows bytes_equal run_gate is_there
  card-Opened =
      strict-Opened card_step [] (adds bound shows_card) (no_test bound)
        (call-Gains bound m (wait_for card_node 15) shows_card (λ r log h. refl) refl) (λ log h. h)
        refl (keep_started shows_gce)

  power-Opened :
      Leads
        (Holds bound)
        (run_gate m (power_step ∷ release_step ∷ poke_panel_step ∷ card_step ∷ []))
        Opened
  unfolding perform wants is_panel bytes_equal
  power-Opened =
      plain-Opened power_step _ refl refl
        (call_met bound m (write_file prod_seq (codes "Y\n")) (λ r log h. panel_met log h))
        (plain-Opened release_step _ refl refl
          (call_met bound m (write_file probe_stage (codes "3\n")) (λ r log h. panel_met log h))
          (plain-Opened poke_panel_step _ refl refl
            (call-Leads bound m
              (write_file (codes "/sys/bus/mipi-dsi/drivers_probe") (codes "14013000.dsi.0\n"))
              (λ r log. refl))
            card-Opened))

  dsi-Opened :
      Leads
        (Holds bound)
        (run_gate m
          (dsi_step ∷ quiet_step ∷ power_step ∷ release_step ∷ poke_panel_step ∷ card_step ∷ []))
        Opened
  unfolding perform wants is_panel bytes_equal
  dsi-Opened =
      plain-Opened dsi_step _ refl refl
        (call-Leads bound m (wait_for dsi_device 15) (λ r log. refl))
        (optional-Opened quiet_step _ (same_facts bound) (no_test bound)
          (call-Leads bound m (write_file (codes "/proc/sys/kernel/printk") (codes "1 4 1 7\n"))
            (λ r log. refl))
          power-Opened refl refl)

  -- the two names of the device
  abbrev IsGce : Bytes → Type 0
  IsGce gce = (gce ≡ stock_gce) ⊎ (gce ≡ mainline_gce)

  shown_gce :
      (gce : Bytes)
      → IsGce gce
      → (shows_gce (did (exists (gce_driver_path gce)) true) ≡ true)
        × (shows_gce (did (wait_for (gce_driver_path gce) 5) true) ≡ true)
  unfolding shows_gce shows gce_driver_path bytes_equal
  shown_gce gce (inl stock) = rw stock (refl, refl)
  shown_gce gce (inr mainline) = rw mainline (refl, refl)

  module _ (gce : Bytes) (named : IsGce gce) where
    abbrev later_steps : List GateStep
    later_steps =
        dsi_step ∷ quiet_step ∷ power_step ∷ release_step ∷ poke_panel_step ∷ card_step ∷ []

    driver_test :
        Leads
          (Holds started)
          (is_there m (gce_driver_path gce))
          (λ r. Holds (adds started shows_gce r))
    unfolding is_there gce_driver_path wants bytes_equal
    driver_test =
        call-Gains started m (exists (gce_driver_path gce)) shows_gce (λ r log h. refl)
          (shown_gce gce named).0

    driver_test_only : Leads (Holds started) (is_there m (gce_driver_path gce)) (λ r. Holds started)
    unfolding is_there gce_driver_path wants bytes_equal
    driver_test_only = call-Leads started m (exists (gce_driver_path gce)) (λ r log. refl)

    bound-Opened : Leads (Holds started) (run_gate m (bound_step gce ∷ later_steps)) Opened
    unfolding perform wants with_fact
    bound-Opened =
        strict-Opened (bound_step gce) later_steps (adds started shows_gce) driver_test
          (call-Gains started m (wait_for (gce_driver_path gce) 5) shows_gce (λ r log h. refl)
            (shown_gce gce named).1)
          dsi-Opened refl (λ log h. h)

    gate-Opened : Leads (Holds started) (run_gate m (gate_sequence gce)) Opened
    unfolding gate_sequence perform wants is_panel bytes_equal
    gate-Opened =
        strict-Opened skip_step _ (same_facts started) (no_test started)
          (call-Leads started m (write_file skip_client (codes "Y\n")) (λ r log. refl))
          (strict-Opened (bind_step gce) _ (same_facts started) driver_test_only
            (call-Leads started m (write_file gce_param (codes "4\n")) (λ r log. refl))
            (strict-Opened (poke_gce_step gce) _ (same_facts started) driver_test_only
              (call-Leads started m
                (write_file (codes "/sys/bus/platform/drivers_probe") (gce ++ codes "\n"))
                (λ r log. refl))
              bound-Opened refl (λ log h. h))
            refl (λ log h. h))
          refl (λ log h. h)

  -- the device's name is one of the two
  abbrev Named : Bytes → Log → Type 0
  Named gce log = IsGce gce × Holds started log

  second_name : (r : Bool) → IsGce (if r then mainline_gce else stock_gce)
  second_name true = inr refl
  second_name false = inl refl

  try_second-Named : (r : Bool) → Leads (Holds started) (try_second m r) Named
  unfolding try_second wants bytes_equal
  try_second-Named true = λ log h. (inl refl, h)
  try_second-Named false =
      Leads-bind (Holds started) (λ r. Holds started) Named _ _
        (call-Leads started m _ (λ r log. refl)) (λ r log h. (second_name r, h))

  gce_node-Named : Leads (Holds started) (gce_node m) Named
  unfolding gce_node wants bytes_equal
  gce_node-Named =
      Leads-bind (Holds started) (λ r. Holds started) Named _ _
        (call-Leads started m _ (λ r log. refl)) try_second-Named

  with_panel-Opened : (r : Bool) → Leads (Holds started) (with_panel m r) Opened
  unfolding with_panel
  with_panel-Opened false = λ log h. h
  with_panel-Opened true =
      Leads-bind (Holds started) Named Opened _ _ gce_node-Named
        (λ gce log h. gate-Opened gce h.0 log h.1)

  pub open_gate-Opened : Leads (Holds started) (open_gate m) Opened
  unfolding open_gate wants
  open_gate-Opened =
      Leads-bind (Holds started) (λ r. Holds started) Opened _ _
        (call_met started m (exists panel_params) (λ r log h. ground (arith, h.1.0)))
        with_panel-Opened
