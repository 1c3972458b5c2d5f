-- ===== src/Ask.antt =====
-- installer/gotools/internal/ask: the dialogs on the panel.
pub mod Layout
pub mod Keyboard
pub mod Touch
pub mod Taps
pub mod Dialogs
pub mod Choices
pub mod Entries
pub mod Scaling
mod Tests
