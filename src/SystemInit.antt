-- ===== src/SystemInit.antt =====
-- installer/gotools/internal/systeminit: PID 1 of the boot initramfs. Ops is the interface of ops.go
-- with a record of what was called, Decide the decisions of decide.go, Boot, Watchdog and Start
-- systeminit.go.
pub mod Ops
pub mod Decide
pub mod RootChoice
pub mod Superblock
pub mod WatchdogFirst
pub mod Rescue
pub mod Boot
pub mod Handoff
pub mod Emits
pub mod Quiet
pub mod Early
pub mod Verified
pub mod Watchdog
pub mod Lease
pub mod ExecGuard
pub mod Switch
pub mod Rollback
pub mod Start
pub mod Entitled
mod Tests
