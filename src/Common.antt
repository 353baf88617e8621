-- ===== src/Common.antt =====
-- src/common: 128-bit integers and UTF-8.
pub mod Int128
pub mod Utf8
pub mod SourceSpan
