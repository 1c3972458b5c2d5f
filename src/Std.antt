-- ===== src/Std.antt =====
-- What the tools use of Go's standard library on text: strings, strconv and encoding/base64.
pub mod Strings
pub mod Strconv
pub mod Ints
pub mod Base64
