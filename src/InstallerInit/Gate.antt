-- ===== src/InstallerInit/Gate.antt =====
-- installer/gotools/internal/installerinit/gate.go: the display gate as a list of steps, and its run.
use dc_1_pmos.Base.{
  ℕ, Bool, true, false, List, [], ◌∷◌, ◌++◌, Option, none, some, if◌then◌else◌, Bytes, codes, ltb,
}
use dc_1_pmos.InstallerInit.Ops.{
  Why, skip_drm_client, bind_gce, poke_gce, gce_bound, dsi_there, quiet_console, power_panel,
  release_probe, poke_panel, card_there, GateError, no_panel_driver, step_failed, skipped, said,
  exists, wait_for, write_file, Machine, Run, ◌>>=◌, ◌>>◌, return, note, call,
}

abbrev pub panel_params : Bytes
panel_params = codes "/sys/module/panel_novatek_nt36523/parameters"

abbrev pub skip_client : Bytes
skip_client = codes "/sys/module/mediatek_drm/parameters/jagar_skip_drm_client"

abbrev pub gce_param : Bytes
gce_param = codes "/sys/module/mtk_cmdq_mailbox/parameters/jagar_mt6789_probe_stage"

abbrev pub dsi_device : Bytes
dsi_device = codes "/sys/bus/mipi-dsi/devices/14013000.dsi.0"

abbrev pub prod_seq : Bytes
prod_seq = codes "/sys/module/panel_novatek_nt36523/parameters/jagar_production_sequence"

abbrev pub probe_stage : Bytes
probe_stage = codes "/sys/module/panel_novatek_nt36523/parameters/jagar_probe_stage"

abbrev pub card_node : Bytes
card_node = codes "/dev/dri/card0"

abbrev pub stock_gce : Bytes
stock_gce = codes "10228000.gce"

abbrev pub mainline_gce : Bytes
mainline_gce = codes "10228000.mailbox"

abbrev pub platform_devices : Bytes
platform_devices = codes "/sys/bus/platform/devices/"

unfoldable pub gce_driver_path : Bytes → Bytes
gce_driver_path node = platform_devices ++ (node ++ codes "/driver")

-- GateStep; an empty `skip_if` and no `wait` stand for the fields that are not set.
pub record GateStep : Type 0 where
  pub why : Why
  pub path : Bytes
  pub value : Bytes
  pub wait : ℕ
  pub optional : Bool
  pub skip_if : Bytes

abbrev writes : Why → Bytes → Bytes → GateStep
writes why path value = record {
  why = why;
  path = path;
  value = value;
  wait = 0;
  optional = false;
  skip_if = [];
}

abbrev waits : Why → Bytes → ℕ → GateStep
waits why path seconds = record {
  why = why;
  path = path;
  value = [];
  wait = seconds;
  optional = false;
  skip_if = [];
}

abbrev unless : Bytes → GateStep → GateStep
unless path s = record s { skip_if = path }

abbrev pub skip_step : GateStep
skip_step = writes skip_drm_client skip_client (codes "Y\n")

abbrev pub bind_step : Bytes → GateStep
bind_step gce = unless (gce_driver_path gce) (writes bind_gce gce_param (codes "4\n"))

abbrev pub poke_gce_step : Bytes → GateStep
poke_gce_step gce =
    unless (gce_driver_path gce)
      (writes poke_gce (codes "/sys/bus/platform/drivers_probe") (gce ++ codes "\n"))

abbrev pub bound_step : Bytes → GateStep
bound_step gce = unless (gce_driver_path gce) (waits gce_bound (gce_driver_path gce) 5)

abbrev pub dsi_step : GateStep
dsi_step = waits dsi_there dsi_device 15

abbrev pub quiet_step : GateStep
quiet_step = record (writes quiet_console (codes "/proc/sys/kernel/printk") (codes "1 4 1 7\n")) {
  optional = true;
}

abbrev pub power_step : GateStep
power_step = writes power_panel prod_seq (codes "Y\n")

abbrev pub release_step : GateStep
release_step = writes release_probe probe_stage (codes "3\n")

abbrev pub poke_panel_step : GateStep
poke_panel_step =
    writes poke_panel (codes "/sys/bus/mipi-dsi/drivers_probe") (codes "14013000.dsi.0\n")

abbrev pub card_step : GateStep
card_step = waits card_there card_node 15

-- GateSequence
unfoldable pub gate_sequence : Bytes → List GateStep
gate_sequence gce =
    skip_step
    ∷ bind_step gce
    ∷ poke_gce_step gce
    ∷ bound_step gce
    ∷ dsi_step
    ∷ quiet_step
    ∷ power_step
    ∷ release_step
    ∷ poke_panel_step
    ∷ card_step
    ∷ []

module _ (m : Machine) where
  unfoldable pub try_second : Bool → Run Bytes
  try_second true = return stock_gce
  try_second false = call m (exists (platform_devices ++ mainline_gce)) >>= λ second.
      return (if second then mainline_gce else stock_gce)

  -- gceNode
  unfoldable pub gce_node : Run Bytes
  gce_node = call m (exists (platform_devices ++ stock_gce)) >>= try_second

  unfoldable pub is_there : Bytes → Run Bool
  is_there [] = return false
  is_there (c ∷ path) = call m (exists (c ∷ path))

  -- WaitFor or WriteFile
  unfoldable pub perform : GateStep → Run Bool
  perform s =
      if ltb 0 s.wait then call m (wait_for s.path s.wait) else call m (write_file s.path s.value)

  -- what follows a step, by whether it succeeded and may fail
  unfoldable pub after_step : GateStep → Run (Option GateError) → Bool → Run (Option GateError)
  after_step s rest true = rest
  after_step s rest false =
      if s.optional then note (said (skipped s.why)) >> rest else return (some (step_failed s.why))

  unfoldable pub unless_there : GateStep → Run (Option GateError) → Bool → Run (Option GateError)
  unless_there s rest true = rest
  unless_there s rest false = perform s >>= after_step s rest

  -- the loop of OpenGate
  unfoldable pub run_gate : List GateStep → Run (Option GateError)
  run_gate [] = return none
  run_gate (s ∷ ss) = let rest = run_gate ss in is_there s.skip_if >>= unless_there s rest

  unfoldable pub with_panel : Bool → Run (Option GateError)
  with_panel false = return (some no_panel_driver)
  with_panel true = gce_node >>= λ gce. run_gate (gate_sequence gce)

  -- OpenGate
  unfoldable pub open_gate : Run (Option GateError)
  open_gate = call m (exists panel_params) >>= with_panel
