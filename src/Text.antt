-- ===== src/Text.antt =====
-- What Python's `str` does on ASCII texts, as the parsers of the program use it. A text is the
-- list of its code points; no other code point is a digit, a letter or a blank here.
mod Parts
mod Numerals
pub mod Utf8
pub mod Laws
unfoldable pub use Parts.*
unfoldable pub use Numerals.*
