-- ===== src/Store.antt =====
-- src/app/store.ts: `MailboxStore`, the SQLite database behind every component.
pub mod Rows
pub mod Mailboxes
pub mod Cipher
pub mod Drafts
pub mod Policies
pub mod Confirmations
pub mod Operations
pub mod Listings
