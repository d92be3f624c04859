-- ===== src/Mail.antt =====
-- Reading mail, src/services/mailService.ts.
pub mod Ids
pub mod Pages
pub mod Attachments
pub mod Source
pub mod Folders
pub mod Summaries
pub mod Listing
pub mod Fanout
