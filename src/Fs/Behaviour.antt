-- ===== src/Fs/Behaviour.antt =====
-- Single calls of the file system: what they return, and what they leave.
pub mod Writes
pub mod Reads
pub mod Failures
pub mod Opening
pub mod Position
pub mod Removal
pub mod Renaming
pub mod Making
mod Examples
