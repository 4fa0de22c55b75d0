-- ===== src/Go.antt =====
-- What the program uses of Go's standard library: `encoding/hex` here and in `Go.Hex`.
pub mod Hex
pub mod Text
pub mod Binary
pub mod Decimal
