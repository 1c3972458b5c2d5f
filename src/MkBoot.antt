-- ===== src/MkBoot.antt =====
-- boot/mkboot/main.go: Android boot images of versions 3 and 4 and MediaTek lk images.
-- A uint32 is a number below 2^32; conversions to it keep the remainder. `int` has 64 bits, which
-- no length of a slice and no offset here leaves.
pub mod Image
pub mod Command
pub mod Lk
pub mod LkCommand
pub mod Info
pub mod Layout
pub mod Header
pub mod Sections
pub mod Verify
pub mod Legacy
mod Tests
