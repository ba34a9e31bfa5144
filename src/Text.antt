-- ===== src/Text.antt =====
-- What the program uses of Go's packages strings and strconv, on texts that are valid UTF-8: a text
-- is a sequence of characters.
pub mod Chars
pub mod Trim
pub mod Split
pub mod Find
pub mod Decimal
