-- ===== src/Text.antt =====
-- The text operations of Python's standard library that the code calls: `str` methods,
-- urllib.parse.quote and unquote, int(text) and str(number). A text is a sequence of Unicode scalar
-- values.
pub mod Chars
pub mod Split
pub mod Trim
pub mod Url
pub mod Utf8
pub mod Quote
pub mod Decimal
