-- ===== src/Text.antt =====
-- What the sources use of Rust's strings: `from_utf8`, `lines`, `split_once`, `trim`, and the decimal
-- digits of a `u64`. A string is the list of its bytes.
pub mod Utf8
pub mod Trim
pub mod Lines
pub mod Decimal
