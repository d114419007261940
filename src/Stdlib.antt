-- ===== src/Stdlib.antt =====
-- What the sources use of Go's standard library: strings.TrimSpace, strconv.Itoa and Atoi,
-- encoding/base32 and encoding/hex.
pub mod Mux
pub mod Trim
pub mod Decimal
pub mod Duration
pub mod Regexp
pub mod Calendar
pub mod Base32
pub mod Hex
