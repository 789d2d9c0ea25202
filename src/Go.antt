-- ===== src/Go.antt =====
-- What the program takes from the standard library of Go: byte strings, scanners, decimal numerals
-- and big integers.
pub mod Text
pub mod Scan
pub mod Decimal
pub mod Big
pub mod Int64
