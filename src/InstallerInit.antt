-- ===== src/InstallerInit.antt =====
-- installer/gotools/internal/installerinit: the init of the installation mode.
pub mod Ops
pub mod Gate
pub mod Gadget
pub mod Status
pub mod Boot
pub mod Facts
pub mod Prepared
pub mod GateOrder
pub mod Order
pub mod Screen
mod Tests
pub mod Dialogs
