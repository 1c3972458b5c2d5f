-- ===== src/InstallerInit/Gadget.antt =====
-- installer/gotools/internal/installerinit/gadget.go: the nodes of the composite gadget, and its binding.
use dc_1_pmos.Base.{Bool, true, false, List, [], ◌∷◌, ◌++◌, Option, none, some, Bytes, codes}
use dc_1_pmos.InstallerInit.Ops.{
  GadgetError, no_configfs, no_udc_class, no_udc_bound, said, node_failed, bound_udc, make_dir,
  symlink, write_file, exists, Machine, Run, ◌>>=◌, ◌>>◌, Done, return, note, call,
}

abbrev pub gadget_root : Bytes
gadget_root = codes "/sys/kernel/config/usb_gadget/g1"

-- path.Join of the root and a name below it
unfoldable pub below : Bytes → Bytes
below name = gadget_root ++ (codes "/" ++ name)

-- gadgetNode: a directory, a file with its value, or a link with its name
pub data GadgetNode : Type 0 where
  dir : Bytes → GadgetNode
  file link : Bytes → Bytes → GadgetNode

unfoldable pub udc_candidates : List Bytes
udc_candidates =
    codes "musb-hdrc.4.auto"
    ∷ codes "musb-hdrc.1.auto"
    ∷ codes "musb-hdrc.0.auto"
    ∷ codes "11201000.usb"
    ∷ codes "11200000.usb"
    ∷ []

unfoldable pub gadget_nodes : List GadgetNode
gadget_nodes =
    file (codes "idVendor") (codes "0x18d1\n")
    ∷ file (codes "idProduct") (codes "0x4ee7\n")
    ∷ dir (codes "strings/0x409")
    ∷ file (codes "strings/0x409/manufacturer") (codes "daylight\n")
    ∷ file (codes "strings/0x409/product") (codes "dc1-installer\n")
    ∷ file (codes "strings/0x409/serialnumber") (codes "dc1-installer\n")
    ∷ dir (codes "configs/c.1")
    ∷ dir (codes "configs/c.1/strings/0x409")
    ∷ file (codes "configs/c.1/strings/0x409/configuration") (codes "acm+ecm\n")
    ∷ dir (codes "functions/acm.0")
    ∷ dir (codes "functions/acm.1")
    ∷ dir (codes "functions/ecm.0")
    ∷ file (codes "functions/ecm.0/dev_addr") (codes "02:1a:11:00:00:02\n")
    ∷ file (codes "functions/ecm.0/host_addr") (codes "02:1a:11:00:00:01\n")
    ∷ link (codes "functions/acm.0") (codes "configs/c.1/acm.0")
    ∷ link (codes "functions/acm.1") (codes "configs/c.1/acm.1")
    ∷ link (codes "functions/ecm.0") (codes "configs/c.1/ecm.0")
    ∷ []

module _ (m : Machine) where
  unfoldable pub make_node : GadgetNode → Run Bool
  make_node (dir name) = call m (make_dir (below name))
  make_node (link target name) = call m (symlink (below target) (below name))
  make_node (file name value) = call m (write_file (below name) value)

  unfoldable pub report_node : Bool → Run Done
  report_node true = return tt
  report_node false = note (said node_failed)

  unfoldable pub make_nodes : List GadgetNode → Run Done
  make_nodes [] = return tt
  make_nodes (n ∷ ns) = (make_node n >>= report_node) >> make_nodes ns

  unfoldable pub bound_or : Bytes → Run (Option GadgetError) → Bool → Run (Option GadgetError)
  bound_or udc rest true = note (said (bound_udc udc)) >> return none
  bound_or udc rest false = rest

  unfoldable pub bind_udc : List Bytes → Run (Option GadgetError)
  bind_udc [] = return (some no_udc_bound)
  bind_udc (udc ∷ udcs) =
      let rest = bind_udc udcs in
      call m (write_file (below (codes "UDC")) udc) >>= bound_or udc rest

  unfoldable pub with_udc_class : Bool → Run (Option GadgetError)
  with_udc_class true = bind_udc udc_candidates
  with_udc_class false = return (some no_udc_class)

  unfoldable pub with_root : Bool → Run (Option GadgetError)
  with_root false = return (some no_configfs)
  with_root true =
      make_nodes gadget_nodes >> (call m (exists (codes "/sys/class/udc")) >>= with_udc_class)

  -- Gadget
  unfoldable pub gadget : Run (Option GadgetError)
  gadget = call m (make_dir gadget_root) >>= with_root
