-- ===== src/Js.antt =====
-- What the frontend uses of JavaScript: text as UTF-16 code units, and decimal numerals.
pub mod Text
pub mod Sets
pub mod Trim
pub mod Split
pub mod Decimal
pub mod Numeral
pub mod Objects
pub mod Numbers
