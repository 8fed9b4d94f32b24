-- ===== src/Unicode.antt =====
-- fd32/modules/unicode: the codecs of UTF-8 and UTF-16.
pub mod Bytes
pub mod Utf8
pub mod Utf16
pub mod Tests
