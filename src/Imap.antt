-- ===== src/Imap.antt =====
-- The read-only IMAP adapter, src/imap.
pub mod Failures
pub mod Parts
pub mod Download
pub mod Messages
pub mod Adapter
pub mod Search
