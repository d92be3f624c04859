-- ===== src/Admin.antt =====
-- The administration panel, src/admin.
pub mod Sessions
