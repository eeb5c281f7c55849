-- ===== src/Clib.antt =====
-- The parts of the C library that the sources call, over memory as lists of bytes.
pub mod Memory
pub mod Strings
pub mod Print
pub mod Scan
pub mod Decimal
pub mod Halts
