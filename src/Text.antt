-- ===== src/Text.antt =====
-- What the Go standard library does to numbers and texts where the code depends on it: `math/big`
-- between numbers and bytes, the format "%d", `strings.Cut`, `strings.SplitN` and `strings.TrimSpace`.
pub mod BigInt
pub mod Decimal
pub mod Split
pub mod Pack
pub mod Padding
pub mod Endian
pub mod Hex
