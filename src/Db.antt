-- ===== src/Db.antt =====
-- The local database (apps/web/src/db).
pub mod Table
pub mod Rows
pub mod Contacts
pub mod Rekey
pub mod Aes
