-- ===== src/Data.antt =====
-- Contact and session persistence (apps/web/src/data).
pub mod Sessions
pub mod Contacts
