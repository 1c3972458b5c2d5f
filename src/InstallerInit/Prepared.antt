-- ===== src/InstallerInit/Prepared.antt =====
-- Run of installerinit.go up to the second stage, and the second stage, whose start is a fact behind it.
use dc_1_pmos.Base.{
  refl, Bool, true, false, not, List, [], ◌∷◌, Option, none, some, Bytes, bytes_equal,
}
use dc_1_pmos.InstallerInit.Ops.{Event, Log, Machine, Run, GadgetError}
use dc_1_pmos.InstallerInit.Gadget.{
  GadgetNode, dir, file, link, below, udc_candidates, gadget_nodes, make_node, report_node,
  make_nodes, bound_or, bind_udc, with_udc_class, with_root, gadget,
}
use dc_1_pmos.InstallerInit.Boot.{
  mount_all, report_gadget, report_status, report_spawn, if_busybox, if_script, start_second_stage,
  prepare,
}
use dc_1_pmos.InstallerInit.Facts.{
  same_argv, starts_second, is_panel, in_memory, wants, Holds, Leads, Leads-bind, with_fact,
  note-Leads, call-Leads, call-Adds, call-Misses, Keeps, Keeps-then, Keeps-bind,
}

module _ (m : Machine) (fs : List (Event → Bool)) where
  mount_all-Keeps : Keeps fs (mount_all m)
  unfolding mount_all wants in_memory bytes_equal
  mount_all-Keeps =
      Keeps-then fs _ _
        (Keeps-then fs _ _
          (Keeps-then fs _ _
            (Keeps-then fs _ _
              (Keeps-then fs _ _
                (Keeps-then fs _ _
                  (Keeps-then fs _ _
                    (Keeps-then fs _ _ (call-Leads fs m _ (λ r log. refl))
                      (call-Leads fs m _ (λ r log. refl)))
                    (call-Leads fs m _ (λ r log. refl)))
                  (call-Leads fs m _ (λ r log. refl)))
                (call-Leads fs m _ (λ r log. refl)))
              (call-Leads fs m _ (λ r log. refl)))
            (call-Leads fs m _ (λ r log. refl)))
          (call-Leads fs m _ (λ r log. refl)))
        (call-Leads fs m _ (λ r log. refl))

  make_node-Keeps : (n : GadgetNode) → Keeps fs (make_node m n)
  unfolding make_node wants below is_panel bytes_equal
  make_node-Keeps (dir name) = call-Leads fs m _ (λ r log. refl)
  make_node-Keeps (file name value) = call-Leads fs m _ (λ r log. refl)
  make_node-Keeps (link target name) = call-Leads fs m _ (λ r log. refl)

  report_node-Keeps : (r : Bool) → Keeps fs (report_node m r)
  unfolding report_node wants
  report_node-Keeps true = λ log h. h
  report_node-Keeps false = note-Leads fs _ (λ log. refl)

  make_nodes-Keeps : (ns : List GadgetNode) → Keeps fs (make_nodes m ns)
  unfolding make_nodes
  make_nodes-Keeps [] = λ log h. h
  make_nodes-Keeps (n ∷ ns) =
      Keeps-then fs _ _ (Keeps-bind fs _ _ (make_node-Keeps n) report_node-Keeps)
        (make_nodes-Keeps ns)

  bound_or-Keeps :
      (udc : Bytes) (rest : Run (Option GadgetError)) (r : Bool)
      → Keeps fs rest
      → Keeps fs (bound_or m udc rest r)
  unfolding bound_or wants
  bound_or-Keeps udc rest false h = h
  bound_or-Keeps udc rest true h = Keeps-then fs _ _ (note-Leads fs _ (λ log. refl)) (λ log h. h)

  bind_udc-Keeps : (udcs : List Bytes) → Keeps fs (bind_udc m udcs)
  unfolding bind_udc wants below is_panel bytes_equal
  bind_udc-Keeps [] = λ log h. h
  bind_udc-Keeps (udc ∷ udcs) =
      Keeps-bind fs _ _ (call-Leads fs m _ (λ r log. refl))
        (λ r. bound_or-Keeps udc _ r (bind_udc-Keeps udcs))

  with_udc_class-Keeps : (r : Bool) → Keeps fs (with_udc_class m r)
  unfolding with_udc_class
  with_udc_class-Keeps true = bind_udc-Keeps udc_candidates
  with_udc_class-Keeps false = λ log h. h

  with_root-Keeps : (r : Bool) → Keeps fs (with_root m r)
  unfolding with_root wants bytes_equal
  with_root-Keeps false = λ log h. h
  with_root-Keeps true =
      Keeps-then fs _ _ (make_nodes-Keeps gadget_nodes)
        (Keeps-bind fs _ _ (call-Leads fs m _ (λ r log. refl)) with_udc_class-Keeps)

  report_gadget-Keeps : (e : Option GadgetError) → Keeps fs (report_gadget m e)
  unfolding report_gadget wants
  report_gadget-Keeps none = λ log h. h
  report_gadget-Keeps (some e) = note-Leads fs _ (λ log. refl)

  report_status-Keeps : (r : Bool) → Keeps fs (report_status m r)
  unfolding report_status wants
  report_status-Keeps true = λ log h. h
  report_status-Keeps false = note-Leads fs _ (λ log. refl)

  pub prepare-Keeps : Keeps fs (prepare m)
  unfolding prepare gadget wants
  prepare-Keeps =
      Keeps-then fs _ _
        (Keeps-then fs _ _
          (Keeps-then fs _ _
            (Keeps-then fs _ _
              (Keeps-then fs _ _ (Keeps-then fs _ _ (note-Leads fs _ (λ log. refl)) mount_all-Keeps)
                (call-Leads fs m _ (λ r log. refl)))
              (note-Leads fs _ (λ log. refl)))
            (call-Leads fs m _ (λ r log. refl)))
          (Keeps-bind fs _ _ (Keeps-bind fs _ _ (call-Leads fs m _ (λ r log. refl)) with_root-Keeps)
            report_gadget-Keeps))
        (Keeps-bind fs _ _ (call-Leads fs m _ (λ r log. refl)) report_status-Keeps)

module _ (m : Machine) where
  abbrev pub Second : Log → Type 0
  Second = Holds (starts_second ∷ [])

  report_spawn-Second : (r : Bool) → Leads Second (report_spawn m r) (λ a. Second)
  unfolding report_spawn wants
  report_spawn-Second true = λ log h. h
  report_spawn-Second false = note-Leads (starts_second ∷ []) _ (λ log. refl)

  -- behind a test for a file, which is missing or leaves the facts as they are
  abbrev Found : Bool → Log → Type 0
  Found r = Holds (with_fact (not r) [] starts_second)

  if_busybox-Second : (r : Bool) → Leads (Found r) (if_busybox m r) (λ a. Second)
  unfolding if_busybox wants with_fact starts_second same_argv bytes_equal
  if_busybox-Second true =
      Leads-bind (Holds []) (λ r. Second) (λ a. Second) _ _
        (call-Adds [] m _ starts_second (λ r log. refl) (λ r. refl)) report_spawn-Second
  if_busybox-Second false = note-Leads (starts_second ∷ []) _ (λ log. refl)

  if_script-Second : (r : Bool) → Leads (Found r) (if_script m r) (λ a. Second)
  unfolding if_script wants with_fact starts_second bytes_equal
  if_script-Second true =
      Leads-bind (Holds []) Found (λ a. Second) _ _
        (call-Misses [] m _ starts_second (λ r log h. refl) refl) if_busybox-Second
  if_script-Second false = note-Leads (starts_second ∷ []) _ (λ log. refl)

  pub start_second_stage-Second : Leads (Holds []) (start_second_stage m) (λ a. Second)
  unfolding start_second_stage wants starts_second bytes_equal
  start_second_stage-Second =
      Leads-bind (Holds []) Found (λ a. Second) _ _
        (call-Misses [] m _ starts_second (λ r log h. refl) refl) if_script-Second
