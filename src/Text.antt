-- ===== src/Text.antt =====
-- The parts of Go's `strings`, `strconv` and `encoding/csv` that the program uses, over texts.
pub mod Split
pub mod Unicode
pub mod Case
pub mod Contains
pub mod Csv
pub mod Fields
pub mod Number
pub mod Integers
