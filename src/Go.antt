-- ===== src/Go.antt =====
-- What the program uses of Go's standard library, over bytes.
pub mod Json
pub mod Path
pub mod Strings
pub mod Table
pub mod Decimal
pub mod Words
pub mod Utf8
pub mod Pieces
