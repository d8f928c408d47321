-- ===== src/Text.antt =====
-- Texts of the Go standard library's functions that the program uses (strconv, strings, fmt).
pub mod Decimal
