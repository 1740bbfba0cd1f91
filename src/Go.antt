-- ===== src/Go.antt =====
-- What the program uses of Go's standard library, as the language's documentation describes it.
pub mod Strconv
pub mod Base64
pub mod Sha256
pub mod Calendar
pub mod DurationText
pub mod Time
pub mod Utf8
pub mod Json
