-- ===== src/InstallerInit/Tests.antt =====
-- Runs of the installation init on a machine where every call succeeds, and a status screen.
use dc_1_pmos.Base.{arith, ℕ, false, ◌≤◌, ◌≡◌, refl, true, [], ◌∷◌, some, Bytes, codes, length, All}
use dc_1_pmos.Std.Strings.{trim_space, trim_left, trim_right, split_lines, cut_prefix}
use dc_1_pmos.Std.Strconv.{ℤ, pos, parse_int, parse_uint, digits_value}
use dc_1_pmos.InstallerInit.Ops.{Machine, ◌>>=◌, ◌>>◌}
use dc_1_pmos.InstallerInit.Status.{
  max_status_lines, is_blank, trim_line, progress_value, is_shown, shown_lines, or_default,
  status_lines, percent_of, line_percent, last_percent, progress_pct, bar_width,
}
use dc_1_pmos.InstallerInit.Boot.{
  run, prepare, start_second_stage, acquire_display, with_display, mount_all, report_gadget,
  report_status, report_spawn, if_busybox, if_script, lit, if_open, loop,
}
use dc_1_pmos.InstallerInit.Gadget.{
  gadget, with_root, make_nodes, make_node, report_node, gadget_nodes, with_udc_class, bind_udc,
  bound_or, udc_candidates,
}
use dc_1_pmos.InstallerInit.Gate.{
  open_gate, with_panel, gce_node, try_second, run_gate, is_there, perform, after_step,
  unless_there, gate_sequence, gce_driver_path,
}
use dc_1_pmos.InstallerInit.Facts.{is_ordered, any, lights}
use dc_1_pmos.InstallerInit.Order.{run-IsOrdered}
use dc_1_pmos.InstallerInit.Dialogs.{Request, serve_dialogs, Unanswered, short_request-Unanswered}
use dc_1_pmos.InstallerInit.Screen.{IsShown, IsPercent, FitsPanel, screen_fits}

abbrev works : Machine
works = record { answer = λ log c. true; contents = λ log path. some (codes "PROGRESS 40\n") }

run-IsOrdered_example : is_ordered (run works 2 []).1 ≡ true
run-IsOrdered_example = run-IsOrdered works 2

-- The display is acquired on that machine.
acquires : any lights (run works 0 []).1 ≡ true
unfolding run any lights ◌>>◌ ◌>>=◌ prepare start_second_stage acquire_display with_display
    mount_all report_gadget report_status report_spawn if_busybox if_script lit if_open loop gadget
    with_root make_nodes make_node report_node gadget_nodes with_udc_class bind_udc bound_or
    udc_candidates open_gate with_panel gce_node try_second run_gate is_there perform after_step
    unless_there gate_sequence gce_driver_path
acquires = refl

abbrev status : Bytes
status = codes "\nWRITING IMAGE\r\nPROGRESS 250\nPROGRESS x\n"

screen_fits_example :
    (1 ≤ length (status_lines status))
    × (length (status_lines status) ≤ max_status_lines)
    × All IsShown (status_lines status)
    × IsPercent (progress_pct status)
    × FitsPanel 1200 (bar_width 1200 (progress_pct status))
screen_fits_example = screen_fits status 1200

shown : (status_lines status ≡ codes "WRITING IMAGE" ∷ []) × (progress_pct status ≡ some 100)
unfolding status_lines or_default shown_lines is_shown progress_value trim_line is_blank trim_right
    split_lines cut_prefix progress_pct last_percent line_percent percent_of parse_int parse_uint
    digits_value trim_space trim_left
shown = (refl, refl)

-- `menu` without a title, and then a message
abbrev message : Request
message = record {
  args = some (codes "info" ∷ codes "HELLO" ∷ []);
  has_touch = true;
  taps = (pos 100, pos 1450) ∷ [];
}

abbrev no_width : ℕ → Bytes → ℤ
no_width scale text = pos 0

short_request-Unanswered_example : All Unanswered (
    serve_dialogs no_width 1200 1600
      (record { args = some (codes "menu" ∷ []); has_touch = true; taps = [] } ∷ message ∷ [])
      false)
short_request-Unanswered_example =
    short_request-Unanswered no_width 1200 1600 (codes "menu" ∷ []) [] (message ∷ []) (omega arith)
      (refl, tt)
