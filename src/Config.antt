-- ===== src/Config.antt =====
-- src/config: the mailboxes that a service works on.
pub mod Registry
