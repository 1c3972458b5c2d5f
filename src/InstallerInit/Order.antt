-- ===== src/InstallerInit/Order.antt =====
-- Run of installerinit.go keeps its order of calls on every machine.
use dc_1_pmos.Base.{
  ℕ, zero, suc, ◌≡◌, refl, Bool, true, false, List, [], ◌∷◌, Option, none, some, Bytes, bytes_equal,
  if_both, ◌==◌, ◌%◌,
}
use dc_1_pmos.InstallerInit.Ops.{display, try_lock, blit, Event, Log, Machine, GateError}
use dc_1_pmos.InstallerInit.Boot.{
  lit, if_open, acquire_display, paint_locked, paint, one_round, loop, with_display, run,
}
use dc_1_pmos.InstallerInit.Facts.{
  shows_gce, shows_card, starts_second, lights, any, is_panel, wants, is_ordered, Holds, Leads,
  Leads-bind, Leads-then, Holds-cons, with_fact, note-Leads, call_met, call-Leads, read-Leads,
  call-Gains, Keeps, Keeps-then, Keeps-bind,
}
use dc_1_pmos.InstallerInit.Prepared.{prepare-Keeps, Second, start_second_stage-Second}
use dc_1_pmos.InstallerInit.GateOrder.{Opened, open_gate-Opened}

module _ (m : Machine) where
  -- the loop, with the facts that hold when it begins
  paint_locked-Keeps :
      (fs : List (Event → Bool)) (status : Bytes) (tick : ℕ) (r : Bool)
      → ((log : Log) → Holds fs log → any lights log ≡ true)
      → Keeps fs (paint_locked m status tick r)
  unfolding paint_locked wants
  paint_locked-Keeps fs status tick false lit' = λ log h. h
  paint_locked-Keeps fs status tick true lit' =
      Keeps-then fs _ _
        (Keeps-then fs _ _ (note-Leads fs _ (λ log. refl))
          (call_met fs m blit (λ r log h. lit' log h)))
        (if_both (Keeps fs) (tick == 0) (note-Leads fs _ (λ log. refl)) (λ log h. h))

  abbrev May : List (Event → Bool) → Bool → Type 0
  May fs surface = surface ≡ true → (log : Log) → Holds fs log → any lights log ≡ true

  paint-Keeps :
      (fs : List (Event → Bool)) (surface : Bool) (status : Bytes) (tick : ℕ)
      → May fs surface
      → Keeps fs (paint m surface status tick)
  unfolding paint wants
  paint-Keeps fs false status tick may = λ log h. h
  paint-Keeps fs true status tick may =
      Keeps-bind fs _ _ (call-Leads fs m try_lock (λ r log. refl))
        (λ r. paint_locked-Keeps fs status tick r (may refl))

  one_round-Keeps :
      (fs : List (Event → Bool)) (surface : Bool) (tick : ℕ) (contents : Option Bytes)
      → May fs surface
      → Keeps fs (one_round m surface tick contents)
  unfolding one_round wants
  one_round-Keeps fs surface tick contents may =
      Keeps-then fs _ _
        (Keeps-then fs _ _
          (Keeps-then fs _ _ (paint-Keeps fs surface _ tick may)
            (if_both (Keeps fs) (tick % 15 == 0) (note-Leads fs _ (λ log. refl)) (λ log h. h)))
          (note-Leads fs _ (λ log. refl)))
        (note-Leads fs _ (λ log. refl))

  loop-Keeps :
      (fs : List (Event → Bool)) (passes : ℕ) (surface : Bool) (tick : ℕ)
      → May fs surface
      → Keeps fs (loop m passes surface tick)
  unfolding loop
  loop-Keeps fs zero surface tick may = λ log h. h
  loop-Keeps fs (suc passes) surface tick may =
      Keeps-then fs _ _
        (Keeps-bind fs _ _ (read-Leads fs m _)
          (λ contents. one_round-Keeps fs surface tick contents may))
        (loop-Keeps fs passes surface (suc tick) may)

  -- what holds when the display was acquired, or was not
  abbrev lit_facts : List (Event → Bool)
  lit_facts = lights ∷ []

  Acquired : Option GateError → Log → Type 0
  Acquired none = Holds lit_facts
  Acquired (some e) = Holds []

  abbrev forget : (fs : List (Event → Bool)) (log : Log) → Holds fs log → Holds [] log
  forget fs log h = (h.0, tt)

  lit-Acquired :
      (r : Bool)
      → Leads
          (Holds (with_fact r (shows_card ∷ shows_gce ∷ starts_second ∷ []) lights))
          (lit m r)
          Acquired
  unfolding lit with_fact Acquired wants is_panel bytes_equal
  lit-Acquired true =
      Leads-then (λ log. Holds (lights ∷ shows_card ∷ shows_gce ∷ starts_second ∷ []) log)
        (Holds lit_facts) Acquired _ _ (λ log h. Holds-cons lit_facts _ log refl (h.0, (h.1.0, tt)))
        (λ log h. h)
  lit-Acquired false = λ log h. (h.0, tt)

  if_open-Acquired : (e : Option GateError) → Leads (Opened m e) (if_open m e) Acquired
  unfolding if_open Acquired wants lights
  if_open-Acquired (some e) = λ log h. (h.0, tt)
  if_open-Acquired none =
      Leads-bind (Holds (shows_card ∷ shows_gce ∷ starts_second ∷ []))
        (λ r. Holds (with_fact r (shows_card ∷ shows_gce ∷ starts_second ∷ []) lights)) Acquired _ _
        (call-Gains _ m display lights (λ r log h. rw (h.1.0, h.1.1.1.0) refl) refl) lit-Acquired

  acquire_display-Acquired : Leads (Second m) (acquire_display m) Acquired
  unfolding acquire_display
  acquire_display-Acquired =
      Leads-bind (Second m) (Opened m) Acquired _ _ (open_gate-Opened m) if_open-Acquired

  with_display-Ordered :
      (passes : ℕ) (e : Option GateError)
      → Leads (Acquired e) (with_display m passes e) (λ a. Holds [])
  unfolding with_display Acquired wants
  with_display-Ordered passes (some e) =
      Keeps-then [] _ _ (note-Leads [] _ (λ log. refl))
        (loop-Keeps [] passes false 0 (λ bad. absurd cc))
  with_display-Ordered passes none = λ log h. forget lit_facts _ (
      Keeps-then lit_facts _ _
        (Keeps-then lit_facts _ _ (note-Leads lit_facts _ (λ log. refl))
          (note-Leads lit_facts _ (λ log. refl)))
        (loop-Keeps lit_facts passes true 0 (λ s log h. h.1.0)) log h)

  -- Whatever the machine answers, and however often the loop of Run goes round: the test for the panel
  -- driver that begins the gate comes when the start of the second stage, which pets the watchdog, was
  -- tried, whether it succeeded or failed, or what that stage needs was found missing; the panel is powered
  -- and its probe released only when, beyond that, GCE was found bound; the display is asked for only
  -- when, beyond the second stage, the card's node was found; nothing is put on the panel before the
  -- display was acquired; and every mount is of proc, sysfs, devtmpfs or configfs.
  pub run-IsOrdered : (passes : ℕ) → is_ordered (run m passes []).1 ≡ true
  unfolding run is_ordered
  run-IsOrdered passes =
      (Leads-then (Holds []) (Second m) (λ a. Holds []) _ _
        (Leads-then (Holds []) (Holds []) (λ a. Second m) _ _ (prepare-Keeps m [])
          (start_second_stage-Second m))
        (Leads-bind (Second m) Acquired (λ a. Holds []) _ _ acquire_display-Acquired
          (with_display-Ordered passes))
        [] (refl, tt)).0
